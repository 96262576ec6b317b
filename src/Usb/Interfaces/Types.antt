-- ===== src/Usb/Interfaces/Types.antt =====
-- What getType of src/userland/usb/main.c answers for the endpoints that setupInterfaces walks over.
use mathlib.Core.Option.{some-injective}
use mathlib.Core.Path.{subst}
use honey_os.Base.{
  ℕ, zero, suc, ◌+◌, ◌-◌, ◌/◌, ◌^◌, ◌≡◌, refl, Bool, true, false, Option, some, List, [], ◌∷◌, ltb,
  ◌==◌, if◌then◌else◌, drop, ◌>>=◌, >>=-eq-some, Bool-cases, Option-cases, inl, inr,
}
use honey_os.Base.Bytes.{read8, read16}
use honey_os.Storage.{endpoint_address}
use honey_os.Usb.Interfaces.{
  interface_endpoints, walk_interfaces, interfaces, interface_type, Search, found, behind,
  search_endpoints, search_interfaces, get_type,
}

-- Whether one of the endpoints has an address.
abbrev pub has_address : (address : ℕ) → List (List ℕ) → Option Bool
has_address address [] = some false
has_address address (endpoint ∷ endpoints) = do
  own ← read8 endpoint 2
  let later = has_address address endpoints
  if own == address then some true else later

-- The type of the first interface that has an endpoint with an address, or -1.
abbrev pub type_of : (address : ℕ) → List (List ℕ × List (List ℕ)) → Option ℕ
type_of address [] = some (2 ^ 32 - 1)
type_of address ((interface, endpoints) ∷ rest) = do
  has ← has_address address endpoints
  let later = type_of address rest
  if has then interface_type interface else later

-- The test of one endpoint in front of the others.
endpoint-tested :
    (address : ℕ) (memory : List ℕ) (walked : List (List ℕ) × List ℕ × ℕ) (later : Option Search)
    → later ≡ (
        has_address address walked.0 >>= λ has.
        some (if has then found else behind walked.1 walked.2))
    → (read8 memory 2 >>= λ own. if own == address then some found else later) ≡ (
        has_address address (memory ∷ walked.0) >>= λ has.
        some (if has then found else behind walked.1 walked.2))
endpoint-tested address memory walked later e = elim (Option-cases (read8 memory 2)) [
  | inl n ↦ rw n refl
  | inr (own, o) ↦ elim (Bool-cases (own == address)) [
    | inl same ↦ rw (o, same) refl
    | inr other ↦ rw (o, other) e
  ]
]

search_endpoints-listed :
    (fuel count address : ℕ) (memory : List ℕ) (position : ℕ) (walked : List (List ℕ) × List ℕ × ℕ)
    → interface_endpoints fuel count memory position ≡ some walked
    → search_endpoints fuel count address memory position ≡ (
        has_address address walked.0 >>= λ has.
        some (if has then found else behind walked.1 walked.2))
unfolding interface_endpoints search_endpoints
search_endpoints-listed fuel zero address memory position walked e =
    subst
      (λ (w : List (List ℕ) × List ℕ × ℕ).
        some (behind memory position)
        ≡ (has_address address w.0 >>= λ has. some (if has then found else behind w.1 w.2)))
      (some-injective _ _ e) refl
search_endpoints-listed zero (suc count) address memory position walked e = cc
search_endpoints-listed (suc fuel) (suc count) address memory position walked e =
    let (size, s, e₁) = >>=-eq-some (read8 memory 0) _ e in
    let (kind, k, e₂) = >>=-eq-some (read8 memory 1) _ e₁ in
    elim (Bool-cases (kind == 5)) [
      | inl is ↦
          let (r, i, e₃) =
            >>=-eq-some (interface_endpoints fuel count (drop size memory) (position + size)) _
              (rw is at e₂) in
          rw (s, k, is)
            (subst
              (λ (w : List (List ℕ) × List ℕ × ℕ).
                (read8 memory 2 >>= λ own.
                if own == address
                then some found
                else search_endpoints fuel count address (drop size memory) (position + size))
                ≡ (has_address address w.0 >>= λ has. some (if has then found else behind w.1 w.2)))
              (some-injective _ _ e₃)
              (endpoint-tested address memory r
                (search_endpoints fuel count address (drop size memory) (position + size))
                (search_endpoints-listed fuel count address (drop size memory) (position + size) r
                  i)))
      | inr other ↦
          rw (s, k, other)
            (search_endpoints-listed fuel (suc count) address (drop size memory) (position + size)
              walked (rw other at e₂))
    ]

-- What the search does behind the endpoints of one interface.
interface-tested :
    (address : ℕ) (memory : List ℕ) (walked : List (List ℕ) × List ℕ × ℕ)
    (rest : List (List ℕ × List (List ℕ))) (later : List ℕ → ℕ → Option ℕ)
    → later walked.1 walked.2 ≡ type_of address rest
    → ((has_address address walked.0 >>= λ has.
          some (if has then found else behind walked.1 walked.2))
        >>= λ result. elim result [
          | found ↦ interface_type memory
          | behind next end ↦ later next end
        ])
      ≡ type_of address ((memory, walked.0) ∷ rest)
interface-tested address memory walked rest later e =
    elim (Option-cases (has_address address walked.0)) [
      | inl n ↦ rw n refl
      | inr (true, h) ↦ rw h refl
      | inr (false, h) ↦ rw h e
    ]

search_interfaces-listed :
    (fuel total_length address : ℕ) (memory : List ℕ) (position : ℕ)
    (walked : List (List ℕ × List (List ℕ)))
    → walk_interfaces fuel total_length memory position ≡ some walked
    → search_interfaces fuel total_length address memory position ≡ type_of address walked
unfolding walk_interfaces search_interfaces
search_interfaces-listed zero total_length address memory position walked e = cc
search_interfaces-listed (suc fuel) total_length address memory position walked e =
    elim (Bool-cases (ltb position total_length)) [
      | inr out ↦ rw out (
          subst (λ w. some (2 ^ 32 - 1) ≡ type_of address w) (some-injective _ _ (rw out at e))
            refl)
      | inl inside ↦
          let (size, s, e₁) = >>=-eq-some (read8 memory 0) _ (rw inside at e) in
          let (count, c, e₂) = >>=-eq-some (read8 memory 4) _ e₁ in
          let (here, h, e₃) =
            >>=-eq-some (interface_endpoints fuel count (drop size memory) (position + size)) _
              e₂ in
          let (rest, r, e₄) = >>=-eq-some (walk_interfaces fuel total_length here.1 here.2) _ e₃ in
          rw
            (
              inside,
              s,
              c,
              search_endpoints-listed fuel count address (drop size memory) (position + size) here
                  h,
            )
            (subst
              (λ w.
                ((has_address address here.0 >>= λ has.
                some (if has then found else behind here.1 here.2))
                  >>= λ result. elim result [
                    | found ↦ interface_type memory
                    | behind next end ↦ search_interfaces fuel total_length address next end
                  ])
                ≡ type_of address w)
              (some-injective _ _ e₄)
              (interface-tested address memory here rest
                (search_interfaces fuel total_length address)
                (search_interfaces-listed fuel total_length address here.1 here.2 rest r)))
    ]

-- Where `setupInterfaces` walks over the interfaces of a configuration, `getType` answers with the type of the first of them that has an endpoint with the address that belongs to the id of the caller, and with -1 where none has.
pub get_type-listed :
    (fuel slot_id : ℕ) (configuration : List ℕ) (walked : List (List ℕ × List (List ℕ)))
    → interfaces fuel configuration ≡ some walked
    → get_type fuel slot_id configuration ≡ type_of (endpoint_address (slot_id / 2 ^ 16)) walked
unfolding interfaces get_type
get_type-listed fuel slot_id configuration walked e =
    let (size, s, e₁) = >>=-eq-some (read8 configuration 0) _ e in
    let (total_length, t, e₂) = >>=-eq-some (read16 configuration 2) _ e₁ in
    rw (s, t)
      (search_interfaces-listed fuel total_length _ (drop size configuration) size walked e₂)
