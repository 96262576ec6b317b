-- ===== src/Hid.antt =====
-- Reports of human interface devices, src/userland/hid/main.c: what a device sends, taken apart by
-- the groups that its report descriptor declared. A list of the library is a list, a usage page is
-- its number, an `int32_t` is its bit pattern, and a pointer into a report is the list of its words
-- from there on. What the code hands to `handleUsage` is the list of events that a step gives.
pub mod Bits
pub mod Keys
pub mod Descriptor
mod Tests
use honey_os.Base.{
  ℕ, zero, suc, ◌+◌, ◌-◌, ◌*◌, ◌/◌, ◌%◌, ◌^◌, Bool, true, false, Option, none, some, List, [], ◌∷◌,
  ◌++◌, not, ◌&&◌, ◌||◌, leb, ◌==◌, if◌then◌else◌, bit_and, drop, get_elem?, ◌>>=◌, map, update,
}
use honey_os.Base.Int.{extend8, extend16}

-- `InputReader`
pub record InputReader : Type 0 where
  pub usage : ℕ
  pub previous_state : ℕ

-- `InputGroup`; `min` and `max` are never read.
pub record InputGroup : Type 0 where
  pub old_states : ℕ → ℕ
  pub size : ℕ
  pub count : ℕ
  pub discard : Bool
  pub relative : Bool
  pub is_signed : Bool
  pub array : Bool
  pub usage_page : ℕ
  pub readers : List InputReader

-- A call of `handleUsage`.
pub record Event : Type 0 where
  pub usage_page : ℕ
  pub usage : ℕ
  pub value : ℕ

-- A place in a report: `*data` and `*bit`.
pub record Place : Type 0 where
  pub words : List ℕ
  pub bit : ℕ

-- `consumeBits`; a shift takes its width modulo 32, as the processor does.
unfoldable pub consume_bits : Place → ℕ → Option (ℕ × Place)
consume_bits place count = do
  let next : Place =
      if leb 32 place.bit
      then record { words = drop 1 place.words; bit = place.bit - 32 }
      else place
  word ← get_elem? next.words 0
  let mask = (2 ^ (count % 32) - 1) * 2 ^ (next.bit % 32) % 2 ^ 32
  some (bit_and word mask / 2 ^ (next.bit % 32), record next { bit = (next.bit + count) % 2 ^ 8 })

-- `getValue`, on the value that was read.
unfoldable pub processed : InputGroup → ℕ → ℕ
processed group raw =
    if group.is_signed
    then if group.size == 8
      then extend8 (raw % 2 ^ 8)
      else if group.size == 16
      then extend16 (raw % 2 ^ 16)
      else raw
    else raw

-- `getValue`
unfoldable pub get_value : InputGroup → Place → Option (ℕ × Place)
unfolding consume_bits processed
get_value group place = do
  (raw, place') ← consume_bits place group.size
  some (processed group raw, place')

-- The first loop of `handleArrayGroup`.
unfoldable pub fetch : InputGroup → List InputReader → Place → Option (List InputReader × Place)
unfolding get_value
fetch group [] place = some ([], place)
fetch group (reader ∷ readers) place = do
  (value, place') ← get_value group place
  (rest, place'') ← fetch group readers place'
  some (record reader { previous_state = value } ∷ rest, place'')

-- The inner loop over `oldStates`, its first `n` entries.
unfoldable pub already_old : (ℕ → ℕ) → (n state : ℕ) → Bool
already_old old_states zero state = false
already_old old_states (suc n) state = already_old old_states n state || (old_states n == state)

-- The inner loop over the readers.
unfoldable pub already_new : List InputReader → ℕ → Bool
already_new [] state = false
already_new (reader ∷ readers) state = (state == reader.previous_state) || already_new readers state

-- The loop for newly activated usages.
unfoldable pub activated : InputGroup → List InputReader → List Event
unfolding already_old
activated group [] = []
activated group (reader ∷ readers) =
    let state = reader.previous_state in
    let rest = activated group readers in
    if (state == 0) || already_old group.old_states group.count state
    then rest
    else record { usage_page = group.usage_page; usage = state; value = 1 } ∷ rest

-- The loop for newly inactivated usages, its first `n` rounds.
unfoldable pub deactivated : InputGroup → List InputReader → ℕ → List Event
unfolding already_new
deactivated group readers zero = []
deactivated group readers (suc n) =
    let state = group.old_states n in
    let before = deactivated group readers n in
    if (state == 0) || already_new readers state
    then before
    else before ++ (record { usage_page = group.usage_page; usage = state; value = 0 } ∷ [])

-- The loop that copies the new states, from index `i` on.
unfoldable pub copy_states : List InputReader → ℕ → (ℕ → ℕ) → ℕ → ℕ
copy_states [] i old_states = old_states
copy_states (reader ∷ readers) i old_states =
    copy_states readers (i + 1) (update old_states i reader.previous_state)

-- `handleArrayGroup`
unfoldable pub handle_array_group : InputGroup → Place → Option (InputGroup × List Event × Place)
unfolding fetch activated deactivated copy_states
handle_array_group group place = do
  (readers, place') ← fetch group group.readers place
  let events = activated group readers ++ deactivated group readers group.count
  let old_states = copy_states readers 0 group.old_states
  some (record group { readers = readers; old_states = old_states }, events, place')

-- The loop of `handleGroup` over the readers of a group that is no array.
unfoldable pub handle_readers :
    InputGroup → List InputReader → Place → Option (List InputReader × List Event × Place)
unfolding get_value
handle_readers group [] place = some ([], [], place)
handle_readers group (reader ∷ readers) place = do
  (value, place') ← get_value group place
  (rest, events, place'') ← handle_readers group readers place'
  let unchanged = (reader.previous_state == value) && not group.relative
  some (
      if unchanged then (reader ∷ rest, events, place'') else (
        record reader { previous_state = value } ∷ rest,
        record { usage_page = group.usage_page; usage = reader.usage; value = value } ∷ events,
        place'',
      ))

-- `handleGroup`
unfoldable pub handle_group : InputGroup → Place → Option (InputGroup × List Event × Place)
unfolding handle_array_group handle_readers
handle_group group place =
    let array = handle_array_group group place in
    let single = do
      (readers, events, place') ← handle_readers group group.readers place
      some (record group { readers = readers }, events, place')
    in if group.discard then some (group, [], place) else if group.array then array else single
