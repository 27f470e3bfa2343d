-- ===== src/Tests/Files.antt =====
-- A small GGUF file, requests to the allocator, and hexadecimal arguments.
use nova_exo.Base.{ℕ, ◌+◌, ◌≡◌, Bool, true, some, List, [], ◌∷◌, ◌++◌, arith, replicate, codes}
use nova_exo.Gguf.{parse_summary, skip_value}
use nova_exo.Gguf.Cursor.{Moves}
use nova_exo.Gguf.Skip.{skip_value-Moves}
use nova_exo.Gguf.Header.{parse_summary-Sound, Holds, Sound}
use nova_exo.Alloc.{alloc, alloc_all, heap_size}
use nova_exo.Alloc.Blocks.{Blocks, Fits, Served, Requests, alloc-Served, alloc_all-Blocks}
use nova_exo.Hexutil.{parse_hex64, write_hex64_to, write_hex_min, parse_digits}
use nova_exo.Hexutil.Parse.{parse_hex64-write_hex64_to, parse_hex64-write_hex_min}
use nova_exo.Hexutil.Value.{parse_digits_lem, fits, hex_value}

abbrev le4 : ℕ → List ℕ
le4 n = n ∷ 0 ∷ 0 ∷ 0 ∷ []

abbrev le8 : ℕ → List ℕ
le8 n = n ∷ replicate 7 0

-- One KV of text and one tensor of two dimensions.
abbrev min_gguf : List ℕ
min_gguf =
    codes "GGUF"
    ++ (le4 3
        ++ (le8 1
            ++ (le8 1
                ++ (le8 4
                    ++ (codes "name"
                        ++ (le4 8
                            ++ (le8 4
                                ++ (codes "test"
                                    ++ (le8 2
                                        ++ (codes "w0"
                                            ++ (le4 2
                                                ++ (le8 2 ++ (le8 2 ++ (le4 6 ++ le8 0))))))))))))))

abbrev any_text : List ℕ → Bool
any_text bs = true

parse_summary-Sound_example : Holds (Sound min_gguf) (parse_summary any_text min_gguf)
parse_summary-Sound_example = parse_summary-Sound any_text min_gguf

-- An array of two arrays of bytes.
abbrev nested : List ℕ
nested = le4 9 ++ (le8 2 ++ (le4 0 ++ (le8 1 ++ (7 ∷ (le4 0 ++ (le8 2 ++ (8 ∷ 9 ∷ [])))))))

skip_value-Moves_example : Moves (λ p. p) nested 0 0 (skip_value any_text 40 nested 9 0)
skip_value-Moves_example = skip_value-Moves any_text 40 nested 9 0 (omega arith) (omega arith)

-- An address of the region in the kernel's image, which is linked from 0xffffffff80000000.
abbrev heap_base : ℕ
heap_base = 0xffffffff80200000

requests : Requests heap_base ((100, 3) ∷ (2000000, 0) ∷ (64, 12) ∷ [])
unfolding Requests
requests = (
  (omega arith, omega arith, omega arith),
  ((omega arith, omega arith, omega arith), ((omega arith, omega arith, omega arith), omega arith)),
)

alloc_all-Blocks_example :
    Blocks
      (heap_base + 0)
      (heap_base + heap_size)
      (alloc_all heap_base ((100, 3) ∷ (2000000, 0) ∷ (64, 12) ∷ []) 0).1
alloc_all-Blocks_example =
    alloc_all-Blocks heap_base ((100, 3) ∷ (2000000, 0) ∷ (64, 12) ∷ []) 0 (omega arith) requests

Fits-small : Fits heap_base 64 12 100
unfolding Fits
Fits-small = (omega arith, omega arith, omega arith, omega arith)

alloc-Served_example : Served heap_base 64 12 100 (alloc heap_base 64 12 100)
alloc-Served_example = alloc-Served heap_base 64 12 100 Fits-small

parse_hex64-write_hex64_to_example : parse_hex64 (write_hex64_to 0xDEADBEEF) ≡ some 0xDEADBEEF
parse_hex64-write_hex64_to_example = parse_hex64-write_hex64_to 0xDEADBEEF (omega arith)

parse_hex64-write_hex_min_example :
    parse_hex64 (write_hex_min 0xFFFFFFFFFFFFFFFF) ≡ some 0xFFFFFFFFFFFFFFFF
parse_hex64-write_hex_min_example = parse_hex64-write_hex_min 0xFFFFFFFFFFFFFFFF (omega arith)

-- Seventeen digits, of which the value does not fit.
parse_digits_lem_example :
    parse_digits 0 (codes "1ffffffffffffffff") ≡ fits (hex_value 0 (codes "1ffffffffffffffff"))
parse_digits_lem_example = parse_digits_lem 0 (codes "1ffffffffffffffff") (omega arith)
