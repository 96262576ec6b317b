-- ===== src/Hid/Tests.antt =====
-- Reports of a keyboard with two keys and of a mouse.
use honey_os.Base.{length, ℕ, ◌≡◌, refl, true, false, some, List, [], ◌∷◌, arith, update}
use honey_os.Hid.{
  InputReader, InputGroup, Place, consume_bits, get_value, processed, fetch, activated, deactivated,
  already_old, already_new, copy_states, handle_array_group,
}
use honey_os.Hid.Descriptor.{ReportParserState, initial_state, input}
use honey_os.Hid.Descriptor.Readers.{input-readers}
use honey_os.Hid.Keys.{handle_array_group-twice}

abbrev key_reader : ℕ → InputReader
key_reader state = record { usage = 0; previous_state = state }

-- Two keys of eight bits each.
abbrev keys : (ℕ → ℕ) → List InputReader → InputGroup
keys old_states readers = record {
  old_states = old_states;
  size = 8;
  count = 2;
  discard = false;
  relative = false;
  is_signed = false;
  array = true;
  usage_page = 7;
  readers = readers;
}

abbrev before : InputGroup
before = keys (λ i. 0) (key_reader 0 ∷ key_reader 0 ∷ [])

abbrev report : Place
report = record { words = 0x0504 ∷ []; bit = 0 }

abbrev after : InputGroup
after = keys (update (update (λ i. 0) 0 4) 1 5) (key_reader 4 ∷ key_reader 5 ∷ [])

handle_array_group-twice_example :
    (group'' : InputGroup) × (handle_array_group after report
      ≡ some (group'', [], record { words = 0x0504 ∷ []; bit = 16 }))
unfolding handle_array_group fetch get_value consume_bits processed activated already_old
    deactivated already_new copy_states update
handle_array_group-twice_example =
    handle_array_group-twice before report (record { words = 0x0504 ∷ []; bit = 16 }) after
      (record { usage_page = 7; usage = 4; value = 1 }
        ∷ record { usage_page = 7; usage = 5; value = 1 }
        ∷ [])
      refl refl

-- The eight modifier keys, one bit each.
abbrev modifiers : ReportParserState
modifiers = record initial_state {
  report_size = 1;
  report_count = 8;
  usage_min = 0xe0;
  usage_max = 0xe7;
  logical_max = 1;
  usage_page = 7;
}

input-readers_example :
    (state' : ReportParserState) × (group : InputGroup) × (input modifiers 2 ≡ some (state', group))
    × (length group.readers ≡ 8)
input-readers_example = input-readers modifiers 2 (omega arith) (omega arith)
