-- ===== src/Drivers/Ports.antt =====
-- What a driver does, one action after the other: it reads and writes ports by the calls of
-- src/hlib/io.c, fires events, and starts and asks other services. The device is a parameter: what a
-- port shows depends on all that was done before.
use honey_os.Base.{ℕ, Bool, true, false, Option, none, some, List, ◌∷◌}
use honey_os.Base.{if◌then◌else◌}

pub data Action : Type 0 where
  read_port : (port value : ℕ) → Action
  write_port : (port value : ℕ) → Action
  fired : (event value : ℕ) → Action
  loaded : (service : ℕ) → Action
  registered : (service kind event : ℕ) → Action

-- The actions so far, the last one first.
abbrev pub Trace : Type 0
Trace = List Action

-- The byte that a port shows.
abbrev pub Device : Type 0
Device = Trace → (port : ℕ) → ℕ

-- A driver leaves its trace also where it never returns: `none` stands for a loop that ran out of fuel.
abbrev pub Driver : Type 0 → Type 0
Driver A = Trace → Option A × Trace

abbrev pub continue : {A B : Type 0} → Option A × Trace → (A → Driver B) → Option B × Trace
continue (none, trace) f = (none, trace)
continue (some a, trace) f = f a trace

infixl 5 ◌>>=◌ ◌>>◌
abbrev pub ◌>>=◌ : {A B : Type 0} → Driver A → (A → Driver B) → Driver B
◌>>=◌ m f trace = continue (m trace) f

abbrev pub ◌>>◌ : {A B : Type 0} → Driver A → Driver B → Driver B
m >> k = m >>= λ _. k

abbrev pub pure : {A : Type 0} → A → Driver A
pure a trace = (some a, trace)

abbrev pub out_of_fuel : {A : Type 0} → Driver A
out_of_fuel trace = (none, trace)

abbrev pub act : Action → Driver (Unit {0})
act action trace = (some tt, action ∷ trace)

-- `ioIn(port, 1)` and `ioOut(port, value, 1)`
unfoldable pub io_in : Device → (port : ℕ) → Driver ℕ
io_in device port trace =
    let value = device trace port in (some value, read_port port value ∷ trace)

unfoldable pub io_out : (port value : ℕ) → Driver (Unit {0})
io_out port value = act (write_port port value)

-- A driver keeps a property of the traces, whether it returns or not.
pub record Keeps (P : Trace → Type 0) {A : Type 0} (m : Driver A) : Type 0 where
  pub kept : (trace : Trace) → P trace → P (m trace).1

module _ {P : Trace → Type 0} {A : Type 0} where
  pub Keeps-pure : (a : A) → Keeps P (pure a)
  Keeps-pure a = record { kept = λ trace p. p }

  pub Keeps-out_of_fuel : Keeps P {A = A} out_of_fuel
  Keeps-out_of_fuel = record { kept = λ trace p. p }

  pub Keeps-if :
      (test : Bool) {m k : Driver A} → Keeps P m → Keeps P k → Keeps P (if test then m else k)
  Keeps-if true m k = m
  Keeps-if false m k = k

Keeps-continue :
    {P : Trace → Type 0} {A B : Type 0} (r : Option A × Trace) (f : A → Driver B)
    → P r.1
    → ((a : A) → Keeps P (f a))
    → P (continue r f).1
Keeps-continue (none, trace) f p h = p
Keeps-continue (some a, trace) f p h = (h a).kept trace p

pub Keeps-bind :
    {P : Trace → Type 0} {A B : Type 0} {m : Driver A} {f : A → Driver B}
    → Keeps P m
    → ((a : A) → Keeps P (f a))
    → Keeps P (m >>= f)
Keeps-bind {m} {f} k h = record { kept = λ trace p. Keeps-continue (m trace) f (k.kept trace p) h }

pub Keeps-then :
    {P : Trace → Type 0} {A B : Type 0} {m : Driver A} {k : Driver B}
    → Keeps P m
    → Keeps P k
    → Keeps P (m >> k)
Keeps-then m k = Keeps-bind m (λ a. k)
