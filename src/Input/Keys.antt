-- ===== src/Input/Keys.antt =====
-- The table of keys of src/include/keycodes.h, as src/userland/keyboard/main.c builds it.
use honey_os.Base.{ℕ, Option, none, some, List, [], ◌∷◌}

-- `KeyInfo`; a string is its characters, NULL is `none`, and a list of modifiers ends with its zero.
pub record KeyInfo : Type 0 where
  pub key : ℕ
  pub normal : Option (List ℕ)
  pub modified : Option (List ℕ)
  pub modifier_keys : List ℕ

abbrev pub modifiers_shift : List ℕ
modifiers_shift = 225 ∷ 229 ∷ []

abbrev pub modifiers_none : List ℕ
modifiers_none = []

abbrev pub key_info : ℕ → Option (List ℕ) → Option (List ℕ) → List ℕ → KeyInfo
key_info key normal modified modifiers = record {
  key = key;
  normal = normal;
  modified = modified;
  modifier_keys = modifiers;
}

-- `KEYS`: the entries in the order in which they stand.
abbrev pub key_infos : List KeyInfo
key_infos =
    key_info 0 (some []) (some []) modifiers_shift
    ∷ key_info 1 (some []) (some []) modifiers_shift
    ∷ key_info 2 (some []) (some []) modifiers_shift
    ∷ key_info 3 (some []) (some []) modifiers_shift
    ∷ key_info 4 (some (97 ∷ [])) (some (65 ∷ [])) modifiers_shift
    ∷ key_info 5 (some (98 ∷ [])) (some (66 ∷ [])) modifiers_shift
    ∷ key_info 6 (some (99 ∷ [])) (some (67 ∷ [])) modifiers_shift
    ∷ key_info 7 (some (100 ∷ [])) (some (68 ∷ [])) modifiers_shift
    ∷ key_info 8 (some (101 ∷ [])) (some (69 ∷ [])) modifiers_shift
    ∷ key_info 9 (some (102 ∷ [])) (some (70 ∷ [])) modifiers_shift
    ∷ key_info 10 (some (103 ∷ [])) (some (71 ∷ [])) modifiers_shift
    ∷ key_info 11 (some (104 ∷ [])) (some (72 ∷ [])) modifiers_shift
    ∷ key_info 12 (some (105 ∷ [])) (some (73 ∷ [])) modifiers_shift
    ∷ key_info 13 (some (106 ∷ [])) (some (74 ∷ [])) modifiers_shift
    ∷ key_info 14 (some (107 ∷ [])) (some (75 ∷ [])) modifiers_shift
    ∷ key_info 15 (some (108 ∷ [])) (some (76 ∷ [])) modifiers_shift
    ∷ key_info 16 (some (109 ∷ [])) (some (77 ∷ [])) modifiers_shift
    ∷ key_info 17 (some (110 ∷ [])) (some (78 ∷ [])) modifiers_shift
    ∷ key_info 18 (some (111 ∷ [])) (some (79 ∷ [])) modifiers_shift
    ∷ key_info 19 (some (112 ∷ [])) (some (80 ∷ [])) modifiers_shift
    ∷ key_info 20 (some (113 ∷ [])) (some (81 ∷ [])) modifiers_shift
    ∷ key_info 21 (some (114 ∷ [])) (some (82 ∷ [])) modifiers_shift
    ∷ key_info 22 (some (115 ∷ [])) (some (83 ∷ [])) modifiers_shift
    ∷ key_info 23 (some (116 ∷ [])) (some (84 ∷ [])) modifiers_shift
    ∷ key_info 24 (some (117 ∷ [])) (some (85 ∷ [])) modifiers_shift
    ∷ key_info 25 (some (118 ∷ [])) (some (86 ∷ [])) modifiers_shift
    ∷ key_info 26 (some (119 ∷ [])) (some (87 ∷ [])) modifiers_shift
    ∷ key_info 27 (some (120 ∷ [])) (some (88 ∷ [])) modifiers_shift
    ∷ key_info 28 (some (121 ∷ [])) (some (89 ∷ [])) modifiers_shift
    ∷ key_info 29 (some (122 ∷ [])) (some (90 ∷ [])) modifiers_shift
    ∷ key_info 30 (some (49 ∷ [])) (some (33 ∷ [])) modifiers_shift
    ∷ key_info 31 (some (50 ∷ [])) (some (64 ∷ [])) modifiers_shift
    ∷ key_info 32 (some (51 ∷ [])) (some (35 ∷ [])) modifiers_shift
    ∷ key_info 33 (some (52 ∷ [])) (some (36 ∷ [])) modifiers_shift
    ∷ key_info 34 (some (53 ∷ [])) (some (37 ∷ [])) modifiers_shift
    ∷ key_info 35 (some (54 ∷ [])) (some (94 ∷ [])) modifiers_shift
    ∷ key_info 36 (some (55 ∷ [])) (some (38 ∷ [])) modifiers_shift
    ∷ key_info 37 (some (56 ∷ [])) (some (42 ∷ [])) modifiers_shift
    ∷ key_info 38 (some (57 ∷ [])) (some (40 ∷ [])) modifiers_shift
    ∷ key_info 39 (some (48 ∷ [])) (some (41 ∷ [])) modifiers_shift
    ∷ key_info 40 (some (10 ∷ [])) none modifiers_none
    ∷ key_info 41 (some []) none modifiers_none
    ∷ key_info 42 (some (8 ∷ [])) none modifiers_none
    ∷ key_info 43 (some (9 ∷ [])) none modifiers_none
    ∷ key_info 44 (some (32 ∷ [])) none modifiers_none
    ∷ key_info 45 (some (45 ∷ [])) (some (95 ∷ [])) modifiers_shift
    ∷ key_info 46 (some (61 ∷ [])) (some (43 ∷ [])) modifiers_shift
    ∷ key_info 47 (some (91 ∷ [])) (some (123 ∷ [])) modifiers_shift
    ∷ key_info 48 (some (93 ∷ [])) (some (125 ∷ [])) modifiers_shift
    ∷ key_info 49 (some (92 ∷ [])) (some (124 ∷ [])) modifiers_shift
    ∷ key_info 50 (some []) none modifiers_none
    ∷ key_info 51 (some (59 ∷ [])) (some (58 ∷ [])) modifiers_shift
    ∷ key_info 52 (some (226 ∷ 128 ∷ 152 ∷ [])) (some (226 ∷ 128 ∷ 156 ∷ [])) modifiers_shift
    ∷ key_info 53 (some []) none modifiers_none
    ∷ key_info 55 (some (46 ∷ [])) (some (62 ∷ [])) modifiers_shift
    ∷ key_info 56 (some (47 ∷ [])) (some (63 ∷ [])) modifiers_shift
    ∷ key_info 57 (some []) none modifiers_none
    ∷ key_info 225 none none modifiers_none
    ∷ key_info 229 none none modifiers_none
    ∷ []
