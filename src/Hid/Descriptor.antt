-- ===== src/Hid/Descriptor.antt =====
-- Report descriptors, `parseReportDescriptor` of src/userland/hid/main.c, less what it prints. A
-- usage page is its index in the table of src/userland/hid/usagePages/usagePages.c.
pub mod Readers
use honey_os.Base.{
  ℕ, zero, suc, ◌+◌, ◌-◌, ◌*◌, ◌/◌, ◌%◌, ◌^◌, ◌<◌, ◌≤◌, ◌≡◌, refl, ap, ◌∙◌, false, Option, none,
  some, List, [], ◌∷◌, ◌++◌, not, ltb, leb, ◌==◌, if◌then◌else◌, drop, length, length-append, ◌>>=◌,
  arith, Bool-cases, inl, inr, ◌&&◌,
}
use honey_os.Base.Bytes.{read8, read32}
use honey_os.Hid.{InputReader, InputGroup}

-- `ReportParserState`, less the padding of what is printed.
pub record ReportParserState : Type 0 where
  pub report_size : ℕ
  pub report_count : ℕ
  pub total_bits : ℕ
  pub usage_min : ℕ
  pub usage_max : ℕ
  pub logical_min : ℕ
  pub logical_max : ℕ
  pub usage_page : ℕ
  pub usages : List ℕ

-- The state before the first item; its usage page is NULL, which 15 stands for, the index behind the table.
abbrev pub initial_state : ReportParserState
initial_state = record {
  report_size = 0;
  report_count = 0;
  total_bits = 0;
  usage_min = 0;
  usage_max = 0;
  logical_min = 0;
  logical_max = 0;
  usage_page = 15;
  usages = [];
}

-- `getUsagePage`
abbrev pub get_usage_page : ℕ → ℕ
get_usage_page id = if leb 15 id then 0 else id

-- `insertInputReader` for each usage of a list; `malloc` clears what it gives.
unfoldable pub insert_input_readers :
    List ℕ → ReportParserState → List InputReader → ReportParserState × List InputReader
insert_input_readers [] state readers = (state, readers)
insert_input_readers (usage ∷ usages) state readers =
    insert_input_readers usages
      (record state { total_bits = (state.total_bits + state.report_size) % 2 ^ 32 })
      (readers ++ (record { usage = usage; previous_state = 0 } ∷ []))

-- The usages of the loops over a counter: always the same, or from a first one on.
unfoldable pub repeated : ℕ → ℕ → List ℕ
repeated zero usage = []
repeated (suc n) usage = usage ∷ repeated n usage

unfoldable pub counted : ℕ → ℕ → List ℕ
counted zero usage = []
counted (suc n) usage = usage ∷ counted n (usage + 1)

-- `usageMax - usageMin + 1`
abbrev range_size : ReportParserState → ℕ
range_size state = (state.usage_max + (2 ^ 32 - state.usage_min) + 1) % 2 ^ 32

-- The usages of the loop over a range; up to the greatest number it never ends.
unfoldable pub range_usages : ReportParserState → Option (List ℕ)
unfolding counted
range_usages state =
    if state.usage_max == 2 ^ 32 - 1
    then none
    else some (counted (state.usage_max + 1 - state.usage_min) state.usage_min)

-- The last three branches of `input`.
unfoldable pub several_usages : ReportParserState → Option (List ℕ)
unfolding range_usages counted
several_usages state =
    if length state.usages == state.report_count
    then some state.usages
    else if (length state.usages == 0) && (range_size state == state.report_count)
    then range_usages state
    else some (counted state.report_count 0)

-- The usages that the four branches of `input` insert.
unfoldable pub input_usages : ReportParserState → Option (List ℕ)
unfolding repeated several_usages
input_usages state = elim state.usages [
  | [] ↦ several_usages state
  | usage ∷ rest ↦
      if length rest == 0 then some (repeated state.report_count usage) else several_usages state
]

-- `input`
unfoldable pub input : ReportParserState → ℕ → Option (ReportParserState × InputGroup)
unfolding input_usages insert_input_readers
input state flags = do
  usages ← input_usages state
  let (state', readers) = insert_input_readers usages state [] in
      some (
        record state' { usages = [] },
        record {
          old_states = λ i. 0;
          size = state.report_size % 2 ^ 8;
          count = state.report_count % 2 ^ 8;
          discard = flags % 2 == 1;
          relative = flags / 4 % 2 == 1;
          is_signed = ltb state.logical_max state.logical_min;
          array = not (flags / 2 % 2 == 1);
          usage_page = state.usage_page;
          readers = readers;
        },
      )

-- The items that only change the state; those that are unknown change nothing.
unfoldable pub state_item : ℕ → ℕ → ReportParserState → ReportParserState
state_item tag value state =
    if tag == 0x01
    then record state { usage_page = get_usage_page value }
    else if tag == 0x02
    then record state { usages = state.usages ++ (value ∷ []) }
    else if tag == 0x05
    then record state { logical_min = value }
    else if tag == 0x09
    then record state { logical_max = value }
    else if tag == 0x06
    then record state { usage_min = value }
    else if tag == 0x0a
    then record state { usage_max = value }
    else if tag == 0x1d
    then record state { report_size = value }
    else if tag == 0x25
    then record state { report_count = value }
    else if tag == 0x28
    then record state { usages = [] }
    else if tag == 0x30
    then record state { usages = [] }
    else state

-- The loop of `parseReportDescriptor`: the total of bits, and the groups behind those there are. A shift takes
-- its width modulo 32, as the processor does.
unfoldable pub parse_items :
    (fuel : ℕ) → List ℕ → ReportParserState → List InputGroup → Option (ℕ × List InputGroup)
unfolding state_item input
parse_items zero buffer state groups = none
parse_items (suc fuel) buffer state groups = do
  item ← read8 buffer 0
  word ← read32 buffer 1
  let size = item % 4
  let value = word % 2 ^ (32 - (4 - size) * 8 % 32)
  (state', groups') ←
      (if item / 4 == 0x20
        then (do (after, group) ← input state value; some (after, groups ++ (group ∷ [])))
        else some (state_item (item / 4) value state, groups))
  let rest = parse_items fuel (drop (1 + size) buffer) state' groups'
  if item / 4 == 0 then some (state.total_bits, groups) else rest

-- `parseReportDescriptor`; every item takes a byte at least.
unfoldable pub parse_report_descriptor : List ℕ → Option (ℕ × List InputGroup)
unfolding parse_items
parse_report_descriptor buffer = parse_items (length buffer + 1) buffer initial_state []
