-- ===== src/StringMap/Lookup.antt =====
-- The tree behaves as a finite map from 32-bit ids to strings.
use native.Mathlib.Nat.{div-div-eq-div-mul}
use native.Mathlib.Numerals.{towards_suc}
use honey_os.Base.{
  ℕ, zero, suc, ◌+◌, ◌*◌, ◌/◌, ◌%◌, ◌^◌, ◌≡◌, refl, Option-cases, sym, ap, ◌∙◌, Bool, true, false,
  ◌&&◌, Option, none, some, ◌==◌, if◌then◌else◌, update, arith, Bool-cases, ◌⊎◌, inl, inr,
}
use honey_os.StringMap.{
  Text, MapLayer, empty_layer, next_layer, hash_string, insert_layers, retrieve_layers,
  discard_layers, Root, insert_string, retrieve_string, discard_string,
}

power_step : (s : ℕ) → 2 ^ (s + 4) ≡ 2 ^ s * 16
power_step s = simp towards_suc (omega arith)

shift_step : (h s : ℕ) → h / 2 ^ (s + 4) ≡ h / 2 ^ s / 16
shift_step h s = rw (power_step s) (sym (div-div-eq-div-mul h (2 ^ s) 16))

-- Two ids agree from a bit on if they agree on four bits there and from behind these on.
agree_step :
    (h k s : ℕ)
    → (h / 2 ^ s == k / 2 ^ s)
      ≡ ((h / 2 ^ s % 16 == k / 2 ^ s % 16) && (h / 2 ^ (s + 4) == k / 2 ^ (s + 4)))
agree_step h k s = ground (arith, shift_step h s, shift_step k s)

retrieve_layers-empty : (n s k : ℕ) → retrieve_layers n s k (empty_layer n) ≡ none
unfolding retrieve_layers
retrieve_layers-empty zero s k = refl
retrieve_layers-empty (suc n) s k = refl

-- What is found behind a pointer.
behind : (n s k : ℕ) → Option (MapLayer n) → Option Text
behind n s k none = none
behind n s k (some layer) = retrieve_layers n s k layer

retrieve_layers-suc :
    (n s k : ℕ) (layer : MapLayer (suc n))
    → retrieve_layers (suc n) s k layer ≡ behind n (s + 4) k (layer (k / 2 ^ s % 16))
unfolding retrieve_layers behind
retrieve_layers-suc n s k layer =
    elim (layer (k / 2 ^ s % 16))
      as (λ o.
        elim o as (λ x. Option Text) [ none ↦ none | some next ↦ retrieve_layers n (s + 4) k next ]
        ≡ behind n (s + 4) k o) [ none ↦ refl | some l ↦ refl ]

retrieve_layers-next_layer :
    (n s k : ℕ) (pointer : Option (MapLayer n))
    → retrieve_layers n s k (next_layer n pointer) ≡ behind n s k pointer
unfolding behind
retrieve_layers-next_layer n s k none = retrieve_layers-empty n s k
retrieve_layers-next_layer n s k (some layer) = refl

behind-if :
    (n s k : ℕ) (b : Bool) (layer : MapLayer n) (pointer : Option (MapLayer n))
    → behind n s k (if b then some layer else pointer)
      ≡ (if b then retrieve_layers n s k layer else behind n s k pointer)
unfolding behind
behind-if n s k true layer pointer = refl
behind-if n s k false layer pointer = refl

if-both {ℓ} :
    {A : Type ℓ} (b c : Bool) (x y z : A)
    → (b ≡ true → y ≡ z)
    → (if b then if c then x else y else z) ≡ (if b && c then x else z)
if-both true true x y z e = refl
if-both true false x y z e = e refl
if-both false c x y z e = refl

insert_layers-at :
    (n s h j : ℕ) (string : Text) (layer : MapLayer (suc n))
    → insert_layers (suc n) s h string layer j ≡ (
        if h / 2 ^ s % 16 == j
        then some (insert_layers n (s + 4) h string (next_layer n (layer (h / 2 ^ s % 16))))
        else layer j)
unfolding insert_layers update
insert_layers-at n s h j string layer = refl

retrieve_step :
    (n s h k : ℕ) (string : Text) (layer : MapLayer (suc n))
    → retrieve_layers n
        (s + 4)
        k
        (insert_layers n (s + 4) h string (next_layer n (layer (h / 2 ^ s % 16))))
      ≡ (if h / 2 ^ (s + 4) == k / 2 ^ (s + 4)
          then some string
          else retrieve_layers n (s + 4) k (next_layer n (layer (h / 2 ^ s % 16))))
    → retrieve_layers (suc n) s k (insert_layers (suc n) s h string layer)
      ≡ (if h / 2 ^ s == k / 2 ^ s then some string else retrieve_layers (suc n) s k layer)
retrieve_step n s h k string layer ih =
    rw
      (
        retrieve_layers-suc n s k layer,
        retrieve_layers-suc n s k (insert_layers (suc n) s h string layer),
        agree_step h k s,
        insert_layers-at n s h (k / 2 ^ s % 16) string layer,
      )
      (behind-if n (s + 4) k (h / 2 ^ s % 16 == k / 2 ^ s % 16)
          (insert_layers n (s + 4) h string (next_layer n (layer (h / 2 ^ s % 16))))
          (layer (k / 2 ^ s % 16))
        ∙ (rw (ih, retrieve_layers-next_layer n (s + 4) k (layer (h / 2 ^ s % 16)))
            (if-both (h / 2 ^ s % 16 == k / 2 ^ s % 16) _ _ _ _
              (λ same. ap (λ i. behind n (s + 4) k (layer i)) (ground (arith, same))))))

-- An id that is inserted, from bit `s` on.
retrieve_layers-insert_layers :
    (n s h k : ℕ) (string : Text) (layer : MapLayer n)
    → s + 4 * n ≡ 28
    → retrieve_layers n s k (insert_layers n s h string layer)
      ≡ (if h / 2 ^ s == k / 2 ^ s then some string else retrieve_layers n s k layer)
unfolding retrieve_layers insert_layers update
retrieve_layers-insert_layers zero s h k string layer e =
    let e' : s ≡ 28 = omega arith in rw e' (ground arith)
retrieve_layers-insert_layers (suc n) s h k string layer e = retrieve_step n s h k string layer (
    retrieve_layers-insert_layers n (s + 4) h k string (next_layer n (layer (h / 2 ^ s % 16)))
      (omega arith))

behind-update :
    (n s k i j : ℕ) (layer : MapLayer (suc n)) (l : MapLayer n)
    → behind n s k (update layer i (some l) j)
      ≡ (if i == j then retrieve_layers n s k l else behind n s k (layer j))
unfolding update
behind-update n s k i j layer l = behind-if n s k (i == j) l (layer j)

-- Where the pointer is NULL the loop ends and nothing changes.
discard_null :
    (n s h k : ℕ) (layer : MapLayer (suc n))
    → layer (h / 2 ^ s % 16) ≡ none
    → retrieve_layers (suc n) s k layer
      ≡ (if h / 2 ^ s == k / 2 ^ s then none else retrieve_layers (suc n) s k layer)
unfolding behind
discard_null n s h k layer e = elim (Bool-cases (h / 2 ^ s == k / 2 ^ s)) [
  | inl same ↦
      let same' : k / 2 ^ s ≡ h / 2 ^ s = ground arith in
      rw (same, retrieve_layers-suc n s k layer)
        (ap (λ x. behind n (s + 4) k (layer (x % 16))) same' ∙ ap (behind n (s + 4) k) e)
  | inr other ↦ rw other refl
]

discard_step :
    (n s h k : ℕ) (layer : MapLayer (suc n)) (l : MapLayer n)
    → layer (h / 2 ^ s % 16) ≡ some l
    → retrieve_layers n (s + 4) k (discard_layers n (s + 4) h l)
      ≡ (if h / 2 ^ (s + 4) == k / 2 ^ (s + 4) then none else retrieve_layers n (s + 4) k l)
    → retrieve_layers
        (suc n)
        s
        k
        (update layer (h / 2 ^ s % 16) (some (discard_layers n (s + 4) h l)))
      ≡ (if h / 2 ^ s == k / 2 ^ s then none else retrieve_layers (suc n) s k layer)
unfolding behind
discard_step n s h k layer l e ih =
    rw
      (
        retrieve_layers-suc n s k layer,
        retrieve_layers-suc n s k
            (update layer (h / 2 ^ s % 16) (some (discard_layers n (s + 4) h l))),
        agree_step h k s,
        behind-update n (s + 4) k (h / 2 ^ s % 16) (k / 2 ^ s % 16) layer
            (discard_layers n (s + 4) h l),
        ih,
      )
      (if-both (h / 2 ^ s % 16 == k / 2 ^ s % 16) _ _ _ _ (λ same.
        let same' : k / 2 ^ s % 16 ≡ h / 2 ^ s % 16 = ground arith in
        sym (ap (λ x. behind n (s + 4) k (layer x)) same' ∙ ap (behind n (s + 4) k) e)))

discard_layers-suc :
    (n s h : ℕ) (layer : MapLayer (suc n))
    → ((layer (h / 2 ^ s % 16) ≡ none) × (discard_layers (suc n) s h layer ≡ layer))
      ⊎ ((l : MapLayer n) × (layer (h / 2 ^ s % 16) ≡ some l)
          × (discard_layers (suc n) s h layer
              ≡ update layer (h / 2 ^ s % 16) (some (discard_layers n (s + 4) h l))))
unfolding discard_layers
discard_layers-suc n s h layer = elim (Option-cases (layer (h / 2 ^ s % 16))) [
  | inl e ↦ inl (e, rw (e, discard_layers) refl)
  | inr (l, e) ↦ inr (l, e, rw (e, discard_layers) refl)
]

-- An id that is discarded, from bit `s` on.
retrieve_layers-discard_layers :
    (n s h k : ℕ) (layer : MapLayer n)
    → s + 4 * n ≡ 28
    → retrieve_layers n s k (discard_layers n s h layer)
      ≡ (if h / 2 ^ s == k / 2 ^ s then none else retrieve_layers n s k layer)
unfolding retrieve_layers discard_layers update
retrieve_layers-discard_layers zero s h k layer e =
    let e' : s ≡ 28 = omega arith in rw e' (ground arith)
retrieve_layers-discard_layers (suc n) s h k layer e = elim (discard_layers-suc n s h layer) [
  | inl (absent, d) ↦ rw d (discard_null n s h k layer absent)
  | inr (l, present, d) ↦ rw d (
      discard_step n s h k layer l present
        (retrieve_layers-discard_layers n (s + 4) h k l (omega arith)))
]

by_id : (h k : ℕ) → (h / 2 ^ 0 == k / 2 ^ 0) ≡ (h == k)
by_id h k = ground arith

-- After `insertString` the string is found under its hash, and under every other id what was found before, whatever the root holds.
pub retrieve_string-insert_string :
    (string : Text) (k : ℕ) (root : Root)
    → retrieve_string k ((insert_string string root).1)
      ≡ (if (insert_string string root).0 == k then some string else retrieve_string k root)
unfolding retrieve_string insert_string
retrieve_string-insert_string string k root =
    retrieve_layers-insert_layers 7 0 (hash_string string) k string root refl
    ∙ rw (by_id (hash_string string) k) refl

-- After `discardString` nothing is found under the id, and under every other id what was found before, whatever the root holds.
pub retrieve_string-discard_string :
    (h k : ℕ) (root : Root)
    → retrieve_string k (discard_string h root) ≡ (if h == k then none else retrieve_string k root)
unfolding retrieve_string discard_string
retrieve_string-discard_string h k root =
    retrieve_layers-discard_layers 7 0 h k root refl ∙ rw (by_id h k) refl
