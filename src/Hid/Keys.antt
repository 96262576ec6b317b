-- ===== src/Hid/Keys.antt =====
-- What a group of keys reports: the keys that are newly pressed and those that are released.
use mathlib.Core.Logic.{inl, inr}
use mathlib.Core.Option.{some-injective}
use mathlib.Core.Path.{subst}
use honey_os.Base.{
  >>=-eq-some, ℕ, zero, suc, ◌+◌, ◌<◌, ◌≤◌, length, ◌≡◌, refl, sym, ap, ◌∙◌, true, ◌||◌, some, List,
  [], ◌∷◌, ◌++◌, ◌==◌, update, arith, Bool-cases,
}
use honey_os.Hid.{
  InputReader, InputGroup, Event, Place, already_old, already_new, fetch, get_value, processed,
  activated, deactivated, copy_states, handle_array_group,
}

activated-none :
    (group : InputGroup) (readers : List InputReader)
    → ((state : ℕ)
        → already_new readers state ≡ true
        → already_old group.old_states group.count state ≡ true)
    → activated group readers ≡ []
unfolding activated already_new
activated-none group [] h = refl
activated-none group (reader ∷ readers) h =
    let here : already_old group.old_states group.count reader.previous_state ≡ true =
      h reader.previous_state (ground arith) in
    let rest = activated-none group readers (λ state e. h state (ground arith)) in ground arith

already_old-at :
    (old_states : ℕ → ℕ) (n i : ℕ) → i < n → already_old old_states n (old_states i) ≡ true
unfolding already_old
already_old-at old_states zero i h = absurd (omega arith)
already_old-at old_states (suc n) i h = elim (Bool-cases (i == n)) [
  | inl last ↦ let e : i ≡ n = ground arith in rw e (ground arith)
  | inr earlier ↦ ground (arith, already_old-at old_states n i (ground arith))
]

deactivated-none :
    (group : InputGroup) (readers : List InputReader) (n : ℕ)
    → ((i : ℕ) → i < n → already_new readers (group.old_states i) ≡ true)
    → deactivated group readers n ≡ []
unfolding deactivated
deactivated-none group readers zero h = refl
deactivated-none group readers (suc n) h =
    let here = h n (omega arith) in
    let before = deactivated-none group readers n (λ i k. h i (omega arith)) in ground arith

already_old-update :
    (old_states : ℕ → ℕ) (n i state state' : ℕ)
    → n ≤ i
    → already_old (update old_states i state) n state' ≡ already_old old_states n state'
unfolding already_old update
already_old-update old_states zero i state state' h = refl
already_old-update old_states (suc n) i state state' h =
    ground (arith, already_old-update old_states n i state state' (omega arith))

-- The copy holds the new states behind those that were there before index `i`.
already_old-copy_states :
    (readers : List InputReader) (i : ℕ) (old_states : ℕ → ℕ) (state : ℕ)
    → already_old (copy_states readers i old_states) (i + length readers) state
      ≡ (already_old old_states i state || already_new readers state)
unfolding copy_states already_new already_old update
already_old-copy_states [] i old_states state =
    let e : i + 0 ≡ i = omega arith in rw e (ground arith)
already_old-copy_states (reader ∷ readers) i old_states state =
    let e : i + suc (length readers) ≡ i + 1 + length readers = omega arith in
    let here : already_old (update old_states i reader.previous_state) (i + 1) state
        ≡ (already_old old_states i state || (reader.previous_state == state)) =
      let s : i + 1 ≡ suc i = omega arith in
      rw s (
        ground
          (arith, already_old-update old_states i i reader.previous_state state (omega arith))) in
    rw e (
      already_old-copy_states readers (i + 1) (update old_states i reader.previous_state) state
      ∙ ground (arith, here))

-- What a group was handed before plays no part in reading a value.
get_value-states :
    (group : InputGroup) (place : Place) (old_states : ℕ → ℕ) (readers : List InputReader)
    → get_value (record group { readers = readers; old_states = old_states }) place
      ≡ get_value group place
unfolding get_value processed
get_value-states group place old_states readers = refl

abbrev Again :
    InputGroup → (ℕ → ℕ) → List InputReader → ℕ → Place → (List InputReader × Place) → Type 0
Again group old_states others count place (readers, place') =
    (fetch (record group { readers = others; old_states = old_states }) readers place
      ≡ some (readers, place'))
    × (length readers ≡ count)

-- A second reading of the same report gives the same states.
fetch-Again :
    (group : InputGroup) (readers : List InputReader) (place : Place)
    (result : List InputReader × Place) (old_states : ℕ → ℕ) (others : List InputReader)
    → fetch group readers place ≡ some result
    → Again group old_states others (length readers) place result
unfolding fetch
fetch-Again group [] place result old_states others h =
    subst (λ x. Again group old_states others 0 place x) (some-injective _ _ h) (refl, refl)
fetch-Again group (reader ∷ readers) place result old_states others h =
    let ((value, place₁), read, h₁) = >>=-eq-some (get_value group place) _ h in
    let ((rest, place₂), more, h₂) = >>=-eq-some (fetch group readers place₁) _ h₁ in
    let (same, count) = fetch-Again group readers place₁ (rest, place₂) old_states others more in
    subst (λ x. Again group old_states others (suc (length readers)) place x)
      (some-injective _ _ h₂)
      (rw (get_value-states group place old_states others, read) (rw same refl), ap suc count)

module _ (group : InputGroup) (readers : List InputReader)
    (size : length readers ≡ group.count) where
  abbrev new_states : ℕ → ℕ
  new_states = copy_states readers 0 group.old_states

  abbrev handled : InputGroup
  handled = record group { readers = readers; old_states = new_states }

  held : (state : ℕ) → already_old new_states group.count state ≡ already_new readers state
  unfolding already_old
  held state =
      let e : 0 + length readers ≡ group.count = omega (arith, size) in
      rw e at (already_old-copy_states readers 0 group.old_states state)

  quiet : activated handled readers ++ deactivated handled readers group.count ≡ []
  quiet =
      let pressed : activated handled readers ≡ [] =
        activated-none handled readers (λ state e. held state ∙ e) in
      let released : deactivated handled readers group.count ≡ [] =
        deactivated-none handled readers group.count
          (λ i k. sym (held (new_states i)) ∙ already_old-at new_states group.count i k) in
      rw (pressed, released) refl

-- After a report with as many states as the group counts has been handled, the same report gives no event: what is held is not pressed again, and nothing is released.
pub handle_array_group-twice :
    (group : InputGroup) (place place' : Place) (group' : InputGroup) (events : List Event)
    → length group.readers ≡ group.count
    → handle_array_group group place ≡ some (group', events, place')
    → (group'' : InputGroup) × (handle_array_group group' place ≡ some (group'', [], place'))
unfolding handle_array_group
handle_array_group-twice group place place' group' events size h =
    let ((readers, place₁), read, done) = >>=-eq-some (fetch group group.readers place) _ h in
    let (same, count) =
      fetch-Again group group.readers place (readers, place₁)
        (copy_states readers 0 group.old_states) readers read in
    let again : InputGroup = record group {
      readers = readers;
      old_states = copy_states readers 0 (copy_states readers 0 group.old_states);
    } in
    subst (λ x. (group'' : InputGroup) × (handle_array_group (x.0) place ≡ some (group'', [], x.2)))
      (some-injective _ _ done) (again, rw (same, quiet group readers (count ∙ size)) refl)
