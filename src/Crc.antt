-- ===== src/Crc.antt =====
-- `crc32.ChecksumIEEE` of Go's hash/crc32: the reflected polynomial 0xEDB88320, bit by bit.
use Prim.Native.Nat.{bit_xor}
use rockskv.Prelude.{◌==◌, if◌then◌else◌, ℕ, ◌/◌, ◌%◌, ◌^◌, ◌<◌, ◌≡◌, refl, [], ◌∷◌, arith}
use rockskv.Bytes.{Bytes, ascii}

-- one bit
shift : ℕ → ℕ
shift c = if c % 2 == 1 then bit_xor (c / 2) 0xEDB88320 else c / 2

update : ℕ → Bytes → ℕ
unfolding shift
update c [] = c
update c (b ∷ bs) =
    update (shift (shift (shift (shift (shift (shift (shift (shift (bit_xor c b))))))))) bs

-- The result is a uint32.
unfoldable pub checksum_ieee : Bytes → ℕ
unfolding update
checksum_ieee bs = bit_xor (update 0xFFFFFFFF bs) 0xFFFFFFFF % 2 ^ 32

pub checksum_ieee-lt : (bs : Bytes) → checksum_ieee bs < 2 ^ 32
unfolding checksum_ieee
checksum_ieee-lt bs = omega arith

-- the check value of the standard
check_value : checksum_ieee (ascii "123456789") ≡ 0xCBF43926
unfolding checksum_ieee
check_value = refl
