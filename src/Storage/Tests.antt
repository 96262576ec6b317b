-- ===== src/Storage/Tests.antt =====
-- The commands of a disk with blocks of 512 bytes.
use honey_os.Base.{◌≡◌, refl, some, [], ◌∷◌, drop}
use honey_os.Storage.{from_big_endian, read10_command, setup, registered_scisi}

-- Block 0x12345678, 513 bytes: two blocks.
read10-bytes :
    drop 10 (read10_command 0x1234_5678 513 512)
    ≡ 0x12 ∷ 0x34 ∷ 0x56 ∷ 0x78 ∷ 0 ∷ 0 ∷ 2 ∷ 0 ∷ 0 ∷ 0 ∷ []
unfolding read10_command
read10-bytes = refl

capacity : from_big_endian (0 ∷ 0 ∷ 2 ∷ 1 ∷ []) ≡ some 513
unfolding from_big_endian
capacity = refl

transparent : setup 0x50_0608 0x50_0608 ≡ registered_scisi
unfolding setup
transparent = refl
