-- ===== src/Transfer/Wire.antt =====
-- Headers, payloads and acknowledgements of tema1/shared/src/lib.rs. A byte is a number below 256.
use laborator_pcd.Base.{
  ℕ, zero, suc, ◌+◌, ◌*◌, ◌/◌, ◌%◌, ◌^◌, ◌<◌, ◌≡◌, refl, ap, ◌∙◌, ltb, if◌then◌else◌, false, Option,
  none, some, List, [], ◌∷◌, ◌++◌, arith, length, take, drop,
}

abbrev pub Bytes : Type 0
Bytes = List ℕ

-- `to_le_bytes` of an integer of so many bytes.
unfoldable pub to_le_bytes : ℕ → ℕ → Bytes
to_le_bytes zero n = []
to_le_bytes (suc w) n = n % 256 ∷ to_le_bytes w (n / 256)

-- `from_le_bytes`
unfoldable pub from_le_bytes : Bytes → ℕ
from_le_bytes [] = 0
from_le_bytes (b ∷ bs) = b + 256 * from_le_bytes bs

-- How many numbers so many bytes can hold.
unfoldable pub capacity : ℕ → ℕ
capacity zero = 1
capacity (suc w) = 256 * capacity w

pub record LenHeader : Type 0 where
  pub len : ℕ

pub record UdpPayload : Type 0 where
  pub seq : ℕ
  pub data_ : Bytes

pub record UdpAck : Type 0 where
  pub ack_seq : ℕ

-- `self.len as u32`
unfoldable pub header_to_bytes : LenHeader → Bytes
unfolding to_le_bytes
header_to_bytes h = to_le_bytes 4 (h.len % 2 ^ 32)

unfoldable pub header_from_bytes : Bytes → LenHeader
unfolding from_le_bytes
header_from_bytes bytes = record { len = from_le_bytes bytes }

unfoldable pub payload_to_bytes : UdpPayload → Bytes
unfolding to_le_bytes
payload_to_bytes p = to_le_bytes 8 p.seq ++ p.data_

-- Shorter bytes than a sequence number are a panic.
unfoldable pub payload_from_bytes : Bytes → Option UdpPayload
unfolding from_le_bytes
payload_from_bytes bytes =
    if ltb (length bytes) 8
    then none
    else some (record { seq = from_le_bytes (take 8 bytes); data_ = drop 8 bytes })

unfoldable pub ack_to_bytes : UdpAck → Bytes
unfolding to_le_bytes
ack_to_bytes a = to_le_bytes 8 a.ack_seq

unfoldable pub ack_from_bytes : Bytes → Option UdpAck
unfolding from_le_bytes
ack_from_bytes bytes =
    if ltb (length bytes) 8 then none else some (record { ack_seq = from_le_bytes (take 8 bytes) })

pub length-to_le_bytes : (w n : ℕ) → length (to_le_bytes w n) ≡ w
unfolding to_le_bytes
length-to_le_bytes zero n = refl
length-to_le_bytes (suc w) n = ap suc (length-to_le_bytes w (n / 256))

pub from-to_le_bytes : (w n : ℕ) → n < capacity w → from_le_bytes (to_le_bytes w n) ≡ n
unfolding to_le_bytes from_le_bytes capacity
from-to_le_bytes zero n h = omega arith
from-to_le_bytes (suc w) n h = omega (arith, from-to_le_bytes w (n / 256) (omega arith))

-- A length that fits four bytes is read back as it was written.
pub header_from-to_bytes :
    (h : LenHeader) → h.len < 2 ^ 32 → header_from_bytes (header_to_bytes h) ≡ h
unfolding header_from_bytes header_to_bytes
header_from-to_bytes h fits =
    ap (λ n. record { len = n })
      (from-to_le_bytes 4 (h.len % 2 ^ 32) (unfold capacity in omega arith) ∙ omega arith)

enough : (n : ℕ) → ltb (suc (suc (suc (suc (suc (suc (suc (suc n)))))))) 8 ≡ false
enough n = ground arith

-- A payload whose sequence number fits 64 bits is read back as it was written, with the bytes that
-- follow it in the buffer at the end of its data.
pub payload_from-to_bytes :
    (p : UdpPayload) (rest : Bytes)
    → p.seq < 2 ^ 64
    → payload_from_bytes (payload_to_bytes p ++ rest)
      ≡ some (record { seq = p.seq; data_ = p.data_ ++ rest })
unfolding payload_from_bytes payload_to_bytes to_le_bytes take drop
payload_from-to_bytes p rest fits = rw (enough (length (p.data_ ++ rest))) (
    ap (λ n. some (record { seq = n; data_ = p.data_ ++ rest }))
      (from-to_le_bytes 8 p.seq (unfold capacity in fits)))

pub ack_from-to_bytes : (a : UdpAck) → a.ack_seq < 2 ^ 64 → ack_from_bytes (ack_to_bytes a) ≡ some a
unfolding ack_from_bytes ack_to_bytes to_le_bytes take
ack_from-to_bytes a fits =
    ap (λ n. some (record { ack_seq = n })) (from-to_le_bytes 8 a.ack_seq (unfold capacity in fits))
