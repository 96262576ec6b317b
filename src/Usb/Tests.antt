-- ===== src/Usb/Tests.antt =====
-- A ring of four blocks, one of which is the link.
use honey_os.Base.{◌≡◌, refl, List, [], ◌∷◌, arith}
use honey_os.Usb.Ring.{XhciTrb, enqueue_command, setup_trb_ring, follow_link}
use honey_os.Usb.Ring.Laps.{enqueue_all, Counts, enqueue_all-Counts}

abbrev trb : XhciTrb
trb = record { data_low = 1; data_high = 2; status = 3; control = 4 }

abbrev four : List XhciTrb
four = trb ∷ trb ∷ trb ∷ trb ∷ []

enqueue_all-Counts_example : Counts 4 4 (enqueue_all four (setup_trb_ring (λ i. trb) 0x1000 4))
enqueue_all-Counts_example = enqueue_all-Counts (λ i. trb) 0x1000 4 four (omega arith) (omega arith)

-- The fifth command is the second block of the second lap.
fifth-address :
    (enqueue_command trb (enqueue_all four (setup_trb_ring (λ i. trb) 0x1000 4))).0 ≡ 0x1010
unfolding enqueue_command follow_link setup_trb_ring
fifth-address = refl
