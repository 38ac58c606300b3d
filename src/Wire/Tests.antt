-- ===== src/Wire/Tests.antt =====
-- htonll and ntohll at a concrete number, with the byte swap of a little-endian machine as htonl.
use nandroidfs.Base.{ℕ, ◌+◌, ◌*◌, ◌/◌, ◌%◌, ◌^◌, ◌≡◌, arith}
use nandroidfs.Wire.{network64}
use nandroidfs.Wire.ByteOrder.{memory64, htonll, ntohll, ToNetwork, ntohll-htonll}

abbrev byte_swap : ℕ → ℕ
byte_swap x =
    x % 256 * 2 ^ 24 + x / 2 ^ 8 % 256 * 2 ^ 16 + x / 2 ^ 16 % 256 * 2 ^ 8 + x / 2 ^ 24 % 256

byte_swap-ToNetwork : ToNetwork byte_swap
byte_swap-ToNetwork = record { below = λ x h. omega arith; ordered = λ x h. ground arith }

ntohll-htonll_example :
    (memory64 (htonll byte_swap 72623859790382856) ≡ network64 72623859790382856)
    × (ntohll byte_swap (htonll byte_swap 72623859790382856) ≡ 72623859790382856)
ntohll-htonll_example = ntohll-htonll byte_swap byte_swap-ToNetwork 72623859790382856 (omega arith)
