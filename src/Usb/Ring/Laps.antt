-- ===== src/Usb/Ring/Laps.antt =====
-- The producer's place in a ring: how many laps it made, and where it is in the current one.
use native.Mathlib.Nat.{
  zero-mul, add-mul, mul-add-mod_self_right, mul-add-div_right, div-eq_of_lt, mod-eq_of_lt,
}
use mathlib.Core.Path.{subst}
use honey_os.Base.{
  ℕ, ◌+◌, ◌-◌, ◌*◌, ◌/◌, ◌%◌, ◌^◌, ◌≤◌, ◌<◌, ◌≡◌, ◌≢◌, refl, sym, ap, ◌∙◌, inl, inr, Bool, true,
  false, not, List, [], ◌∷◌, ◌==◌, update, length, arith, Bool-cases,
}
use honey_os.Usb.Ring.{XhciTrb, TrbRing, toggle, follow_link, enqueue_command, setup_trb_ring}

-- Whether a number is even.
abbrev pub is_even : ℕ → Bool
is_even n = n % 2 == 0

-- After `count` commands.
pub record Lap (size count : ℕ) (ring : TrbRing) : Type 0 where
  pub laps : ℕ
  pub counts : count ≡ laps * (size - 1) + ring.enqueue
  pub inside : ring.enqueue < size - 1
  pub keeps : ring.size ≡ size
  pub cycles : ring.cycle ≡ is_even laps
  pub hands_over : ((ring.trbs (size - 1)).control % 2 == 0) ≡ is_even laps

next_lap : (laps m : ℕ) → (laps + 1) * m ≡ laps * m + m
next_lap laps m = add-mul laps 1 m ∙ omega arith

toggle-even : (c : ℕ) → (toggle c % 2 == 0) ≡ not (c % 2 == 0)
toggle-even c = ground arith

enqueue_command-wraps :
    (size count : ℕ) (trb : XhciTrb) (ring : TrbRing)
    → size < 2 ^ 32
    → ring.enqueue + 1 ≡ size - 1
    → Lap size count ring
    → Lap size (count + 1) (enqueue_command trb ring).1
unfolding enqueue_command follow_link update
enqueue_command-wraps size count trb ring h e lap =
    let at_link : ((ring.enqueue + 1) % 2 ^ 32 == ring.size - 1) ≡ true =
      ground (arith, lap.keeps) in
    let next : (ring.enqueue + 1) % 2 ^ 32 ≡ size - 1 = omega arith in
    let turn : is_even (lap.laps + 1) ≡ not (is_even lap.laps) = ground arith in
    let same : (size - 1 == size - 1) ≡ true = ground arith in
    let away : (ring.enqueue == size - 1) ≡ false = ground (arith, lap.inside) in
    rw (follow_link, at_link)
      record {
        laps = lap.laps + 1;
        counts = omega (arith, lap.counts, next_lap lap.laps (size - 1));
        inside = omega (arith, lap.inside);
        keeps = lap.keeps;
        cycles = ap not lap.cycles ∙ sym turn;
        hands_over = rw next (rw (same, away) (toggle-even _) ∙ ap not lap.hands_over ∙ sym turn);
      }

enqueue_command-goes_on :
    (size count : ℕ) (trb : XhciTrb) (ring : TrbRing)
    → size < 2 ^ 32
    → ring.enqueue + 1 ≢ size - 1
    → Lap size count ring
    → Lap size (count + 1) (enqueue_command trb ring).1
unfolding enqueue_command follow_link update
enqueue_command-goes_on size count trb ring h n lap =
    let before_link : ((ring.enqueue + 1) % 2 ^ 32 == ring.size - 1) ≡ false =
      ground (arith, lap.keeps, lap.inside) in
    let next : (ring.enqueue + 1) % 2 ^ 32 ≡ ring.enqueue + 1 = omega (arith, lap.inside) in
    let away : (ring.enqueue == size - 1) ≡ false = ground (arith, lap.inside) in
    rw (follow_link, before_link)
      record {
        laps = lap.laps;
        counts = omega (arith, lap.counts, next);
        inside = omega (arith, lap.inside, next);
        keeps = lap.keeps;
        cycles = lap.cycles;
        hands_over = rw away lap.hands_over;
      }

enqueue_command-Lap :
    (size count : ℕ) (trb : XhciTrb) (ring : TrbRing)
    → size < 2 ^ 32
    → Lap size count ring
    → Lap size (count + 1) (enqueue_command trb ring).1
enqueue_command-Lap size count trb ring h lap = elim (Bool-cases (ring.enqueue + 1 == size - 1)) [
  | inl e ↦ enqueue_command-wraps size count trb ring h (ground arith) lap
  | inr n ↦ enqueue_command-goes_on size count trb ring h (ground arith) lap
]

-- Commands that are put into a ring one after the other.
abbrev pub enqueue_all : List XhciTrb → TrbRing → TrbRing
enqueue_all [] ring = ring
enqueue_all (trb ∷ trbs) ring = enqueue_all trbs (enqueue_command trb ring).1

enqueue_all-Lap :
    (size count : ℕ) (trbs : List XhciTrb) (ring : TrbRing)
    → size < 2 ^ 32
    → Lap size count ring
    → Lap size (count + length trbs) (enqueue_all trbs ring)
enqueue_all-Lap size count [] ring h lap = subst (λ n. Lap size n ring) (omega arith) lap
enqueue_all-Lap size count (trb ∷ trbs) ring h lap =
    subst (λ n. Lap size n (enqueue_all trbs (enqueue_command trb ring).1)) (omega arith)
      (enqueue_all-Lap size (count + 1) trbs (enqueue_command trb ring).1 h
        (enqueue_command-Lap size count trb ring h lap))

setup_trb_ring-Lap :
    (blocks : ℕ → XhciTrb) (physical size : ℕ)
    → 2 ≤ size
    → Lap size 0 (setup_trb_ring blocks physical size)
unfolding setup_trb_ring update
setup_trb_ring-Lap blocks physical size h =
    let same : (size - 1 == size - 1) ≡ true = ground arith in
    record {
      laps = 0;
      counts = omega (arith, zero-mul (size - 1));
      inside = omega arith;
      keeps = refl;
      cycles = refl;
      hands_over = rw same refl;
    }

-- The state of a ring after `count` commands, by a counter alone.
pub record Counts (size count : ℕ) (ring : TrbRing) : Type 0 where
  pub place : ring.enqueue ≡ count % (size - 1)
  pub cycle : ring.cycle ≡ is_even (count / (size - 1))
  pub link : ((ring.trbs (size - 1)).control % 2 == 0) ≡ is_even (count / (size - 1))

Lap-Counts : (size count : ℕ) (ring : TrbRing) → Lap size count ring → Counts size count ring
Lap-Counts size count ring lap =
    let m = size - 1 in
    let positive : 0 < m = omega (arith, lap.inside) in
    let laps : count / m ≡ lap.laps = rw lap.counts (
      mul-add-div_right positive lap.laps ring.enqueue
      ∙ rw (div-eq_of_lt lap.inside) (omega arith)) in
    record {
      place = sym (
          rw lap.counts (mul-add-mod_self_right lap.laps m ring.enqueue ∙ mod-eq_of_lt lap.inside));
      cycle = lap.cycles ∙ ap is_even (sym laps);
      link = lap.hands_over ∙ ap is_even (sym laps);
    }

-- A ring of `size` blocks, from 2 to 2^32 - 1, whatever they held, one of which is the link, behaves as a counter of its commands: after any of them the next block is their number modulo `size - 1`, and the ring's cycle bit and the link's say whether the number of complete laps is even.
pub enqueue_all-Counts :
    (blocks : ℕ → XhciTrb) (physical size : ℕ) (trbs : List XhciTrb)
    → 2 ≤ size
    → size < 2 ^ 32
    → Counts size (length trbs) (enqueue_all trbs (setup_trb_ring blocks physical size))
enqueue_all-Counts blocks physical size trbs h h' =
    Lap-Counts size (length trbs) (enqueue_all trbs (setup_trb_ring blocks physical size)) (
      subst (λ n. Lap size n (enqueue_all trbs (setup_trb_ring blocks physical size))) (omega arith)
        (enqueue_all-Lap size 0 trbs (setup_trb_ring blocks physical size) h'
          (setup_trb_ring-Lap blocks physical size h)))
