-- ===== src/Drivers/Ps2/Tests.antt =====
-- The driver with a keyboard at the first port.
use honey_os.Base.{ℕ, ◌+◌, ◌≡◌, refl, ◌==◌, if◌then◌else◌, List, [], ◌∷◌, ◌++◌, some}
use honey_os.Drivers.Ports.{read_port, write_port, registered, Trace, Device}
use honey_os.Drivers.Ps2.{start}
use honey_os.Drivers.Ps2.Guarded.{IsGuarded}
use honey_os.Drivers.Ps2.Startup.{start-IsGuarded}

-- What the controller answers to a command, and the keyboard to a byte.
abbrev controller_answer : ℕ → List ℕ
controller_answer value =
    if value == 0x20
    then 0x47 ∷ []
    else if value == 0xaa
    then 0x55 ∷ []
    else if value == 0xab
    then 0 ∷ []
    else []

abbrev keyboard_answer : ℕ → List ℕ
keyboard_answer value =
    if value == 0xff
    then 0xfa ∷ 0xaa ∷ []
    else if value == 0xf5
    then 0xfa ∷ []
    else if value == 0xf2
    then 0xfa ∷ 0xab ∷ 0x83 ∷ []
    else if value == 0
    then 0xfa ∷ 2 ∷ []
    else if value == 1
    then 0xfa ∷ []
    else []

abbrev behind_first : List ℕ → List ℕ
behind_first [] = []
behind_first (byte ∷ bytes) = bytes

-- The bytes that wait for the driver.
abbrev waiting : Trace → List ℕ
waiting [] = []
waiting (read_port port value ∷ trace) =
    let bytes = waiting trace in if port == 0x60 then behind_first bytes else bytes
waiting (write_port port value ∷ trace) =
    waiting trace ++ (if port == 0x64 then controller_answer value else keyboard_answer value)
waiting (_ ∷ trace) = waiting trace

abbrev shown : List ℕ → (port : ℕ) → ℕ
shown [] port = 0
shown (byte ∷ bytes) port = if port == 0x60 then byte else 1

abbrev keyboard : Device
keyboard trace port = shown (waiting trace) port

-- The keyboards that were registered.
abbrev keyboards : Trace → List (ℕ × ℕ)
keyboards [] = []
keyboards (registered service kind event ∷ trace) = (kind, event) ∷ keyboards trace
keyboards (_ ∷ trace) = keyboards trace

start-keyboard : keyboards (start keyboard 10 (λ i. 70 + i) []).1 ≡ (11, 70) ∷ []
unfolding start
start-keyboard = refl

start-returns : (start keyboard 10 (λ i. 70 + i) []).0 ≡ some tt
unfolding start
start-returns = refl

start-IsGuarded_example : IsGuarded (start keyboard 10 (λ i. 70 + i) []).1
start-IsGuarded_example = start-IsGuarded keyboard 10 (λ i. 70 + i)
