-- ===== src/Hid/Descriptor/Readers.antt =====
-- The readers that `input` gives a group: one for each report that is counted.
use honey_os.Base.{
  ℕ, zero, suc, ◌+◌, ◌-◌, ◌%◌, ◌^◌, ◌<◌, ◌≤◌, ◌≡◌, refl, ap, ◌∙◌, false, Option, some, List, [],
  ◌∷◌, ◌++◌, ◌==◌, if◌then◌else◌, length, length-append, arith, Bool-cases, inl, inr, ◌&&◌,
}
use honey_os.Hid.{InputReader, InputGroup}
use honey_os.Hid.Descriptor.{
  ReportParserState, insert_input_readers, repeated, counted, range_size, range_usages,
  several_usages, input_usages, input,
}

insert_input_readers-length :
    (usages : List ℕ) (state : ReportParserState) (readers : List InputReader)
    → length (insert_input_readers usages state readers).1 ≡ length readers + length usages
unfolding insert_input_readers
insert_input_readers-length [] state readers = omega arith
insert_input_readers-length (usage ∷ usages) state readers =
    insert_input_readers-length usages
      (record state { total_bits = (state.total_bits + state.report_size) % 2 ^ 32 })
      (readers ++ (record { usage = usage; previous_state = 0 } ∷ []))
    ∙ omega (arith, length-append readers (record { usage = usage; previous_state = 0 } ∷ []))

length-repeated : (n usage : ℕ) → length (repeated n usage) ≡ n
unfolding repeated
length-repeated zero usage = refl
length-repeated (suc n) usage = ap suc (length-repeated n usage)

length-counted : (n usage : ℕ) → length (counted n usage) ≡ n
unfolding counted
length-counted zero usage = refl
length-counted (suc n) usage = ap suc (length-counted n (usage + 1))

-- The usages that a state gives, as many as the reports that are counted.
abbrev IsCounted : ReportParserState → Option (List ℕ) → Type 0
IsCounted state result =
    (usages : List ℕ) × (result ≡ some usages) × (length usages ≡ state.report_count)

several_usages-IsCounted :
    (state : ReportParserState)
    → state.usage_min ≤ state.usage_max
    → state.usage_max < 2 ^ 32 - 1
    → IsCounted state (several_usages state)
unfolding several_usages range_usages
several_usages-IsCounted state ordered below =
    let inside : (state.usage_max == 2 ^ 32 - 1) ≡ false = ground arith in
    elim (Bool-cases (length state.usages == state.report_count)) [
      | inl same ↦ (state.usages, rw (same, several_usages) refl, ground arith)
      | inr other ↦
          elim (Bool-cases
            ((length state.usages == 0) && (range_size state == state.report_count))) [
              | inl range ↦ (
                counted (state.usage_max + 1 - state.usage_min) state.usage_min,
                rw (other, range, inside, several_usages) refl,
                length-counted (state.usage_max + 1 - state.usage_min) state.usage_min
                    ∙ ground arith,
              )
              | inr none_given ↦ (
                counted state.report_count 0,
                rw (other, none_given, several_usages) refl,
                length-counted state.report_count 0,
              )
            ]
    ]

input_usages-IsCounted :
    (state : ReportParserState)
    → state.usage_min ≤ state.usage_max
    → state.usage_max < 2 ^ 32 - 1
    → IsCounted state (input_usages state)
unfolding input_usages
input_usages-IsCounted state ordered below =
    let several = several_usages-IsCounted state ordered below in
    elim state.usages
      as (λ usages. IsCounted state (elim usages as (λ x. Option (List ℕ)) [
        | [] ↦ several_usages state
        | usage ∷ rest ↦
            if length rest == 0
            then some (repeated state.report_count usage)
            else several_usages state
      ])) [
        | [] ↦ several
        | usage ∷ rest ↦ elim (Bool-cases (length rest == 0)) [
          | inl one ↦
              rw one
                (repeated state.report_count usage, refl, length-repeated state.report_count usage)
          | inr more ↦ rw more several
        ]
      ]

-- With the least usage not above the greatest, and the greatest below 2^32 - 1, `input` ends in each of its branches with a group that has a reader for each report that is counted.
pub input-readers :
    (state : ReportParserState) (flags : ℕ)
    → state.usage_min ≤ state.usage_max
    → state.usage_max < 2 ^ 32 - 1
    → (state' : ReportParserState) × (group : InputGroup) × (input state flags
        ≡ some (state', group))
      × (length group.readers ≡ state.report_count)
unfolding input
input-readers state flags ordered below =
    let (usages, given, count) = input_usages-IsCounted state ordered below in
    rw given (_, _, refl, omega (arith, insert_input_readers-length usages state [], count))
