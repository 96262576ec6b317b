-- ===== src/StringMap/Tests.antt =====
-- The string map of src/kernel/stringmap/stringmap.c with the name of an event.
use honey_os.Base.{◌≡◌, none, some, [], ◌∷◌, ◌==◌, if◌then◌else◌}
use honey_os.StringMap.{
  Text, empty_layer, hash_string, insert_string, retrieve_string, discard_string,
}
use honey_os.StringMap.Lookup.{retrieve_string-insert_string, retrieve_string-discard_string}

-- "crash"
abbrev crash : Text
crash = 99 ∷ 114 ∷ 97 ∷ 115 ∷ 104 ∷ []

retrieve_string-insert_string_example :
    retrieve_string 5 ((insert_string crash (empty_layer 7)).1) ≡ (
      if (insert_string crash (empty_layer 7)).0 == 5
      then some crash
      else retrieve_string 5 (empty_layer 7))
retrieve_string-insert_string_example = retrieve_string-insert_string crash 5 (empty_layer 7)

retrieve_string-discard_string_example :
    retrieve_string 5 (discard_string (hash_string crash) (insert_string crash (empty_layer 7)).1)
    ≡ (if hash_string crash == 5
        then none
        else retrieve_string 5 (insert_string crash (empty_layer 7)).1)
retrieve_string-discard_string_example =
    retrieve_string-discard_string (hash_string crash) 5 (insert_string crash (empty_layer 7)).1
