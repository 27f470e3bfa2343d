-- ===== src/Tests/Ps2.antt =====
-- Runs of the mouse decoder.
use nova_exo.Base.{◌≡◌, refl, [], ◌∷◌, true, false, none, some, bit, arith, ◌%◌, List, ◌+◌}
use nova_exo.Base.Int.{pos, negsuc}
use nova_exo.Ps2.{mouse, tastiera, Pacchetto, destinazione, decodifica, new, push_bytes, complete}
use nova_exo.Ps2.Decode.{first_byte, low_byte, decodifica-first_byte}
use nova_exo.Ps2.Stream.{
  IsValid, new-IsValid, push_bytes-phase, Group, bytes_of, decode_groups, push_bytes-bytes_of,
}

-- Five to the right, three up, left button.
abbrev move : Pacchetto
move = record { dx = pos 5; dy = negsuc 2; bottoni = 1; overflow = false }

destinazione_cases :
    (destinazione 0x21 ≡ some mouse)
    × (destinazione 0x1d ≡ some tastiera)
    × (destinazione 0x20 ≡ none)
unfolding destinazione
destinazione_cases = (refl, refl, refl)

decodifica-move : decodifica 0x29 0x05 0xfd ≡ move
unfolding decodifica
decodifica-move = refl

decodifica-first_byte_example :
    (decodifica (first_byte move) (low_byte move.dx) (low_byte move.dy) ≡ move)
    × (bit (first_byte move) 3 ≡ true)
decodifica-first_byte_example = decodifica-first_byte move (omega arith) (omega arith) (omega arith)

abbrev groups : List Group
groups =
    record { first = 0x29; second = 0x05; third = 0xfd }
    ∷ record { first = 0x00; second = 0x01; third = 0x02 }
    ∷ record { first = 0x08; second = 0x00; third = 0x00 }
    ∷ []

push_bytes-bytes_of_example : (push_bytes new (bytes_of groups)).1 ≡ decode_groups groups
unfolding new
push_bytes-bytes_of_example = push_bytes-bytes_of groups new-IsValid refl

-- The group with no phase bit gives no packet.
decode_groups_two :
    decode_groups groups
    ≡ move ∷ record { dx = pos 0; dy = pos 0; bottoni = 0; overflow = false } ∷ []
unfolding complete decodifica
decode_groups_two = refl

push_bytes-phase_example :
    IsValid (push_bytes new (0x05 ∷ 0xfd ∷ 0x29 ∷ 0x05 ∷ [])).0
    × ((push_bytes new (0x05 ∷ 0xfd ∷ 0x29 ∷ 0x05 ∷ [])).0.n ≡ (new.n + 4) % 3)
push_bytes-phase_example = push_bytes-phase (0x05 ∷ 0xfd ∷ 0x29 ∷ 0x05 ∷ []) new-IsValid
