-- ===== src/Transfer/Data.antt =====
-- tema1/generate_data.py, which writes a file of random bytes.
use Prim.Native.String.{◌++◌ as ◌<>◌}
use laborator_pcd.Base.{
  ℕ, zero, suc, ◌*◌, ◌^◌, ◌≡◌, refl, ap, ◌∙◌, ℤ, pos_part, if◌then◌else◌, ◌==◌, String, Option,
  none, some, List, [], ◌∷◌, ◌++◌, arith, length, length-append,
}
use laborator_pcd.Base.Chars.{Chars, codes}
use laborator_pcd.Py.{int_of_text}
use laborator_pcd.Transfer.Wire.{Bytes}

-- `os.urandom`: the bytes of a call, by its number and the size that it asks for.
abbrev pub Urandom : Type 0
Urandom = ℕ → ℕ → Bytes

-- As many bytes as were asked for.
abbrev pub IsFull : Urandom → Type 0
IsFull urandom = (call size : ℕ) → length (urandom call size) ≡ size

-- How the script ends: by an exit with code 1, or with a file.
pub data Run : Type 0 where
  usage : Run
  bad_size : Run
  written : String → Bytes → Run

-- What the loop writes from a call on.
unfoldable pub write_from : Urandom → ℕ → ℕ → Bytes
write_from urandom call zero = []
write_from urandom call (suc left) =
    urandom call (1024 * 1024) ++ write_from urandom (suc call) left

-- `os.path.join("client/data", filename)`, which is the file name if that is an absolute path.
abbrev pub path_of : String → Chars → String
path_of filename [] = "client/data/"
path_of filename (c ∷ cs) = if c == b'/' then filename else "client/data/" <> filename

-- `range` of a negative number is empty.
unfoldable pub generate_data : Urandom → String → ℤ → Run
unfolding write_from
generate_data urandom filename size_in_mb =
    written (path_of filename (codes filename)) (write_from urandom 0 (pos_part size_in_mb))

abbrev pub with_size : Urandom → String → Option ℤ → Run
with_size urandom filename none = bad_size
with_size urandom filename (some size_in_mb) = generate_data urandom filename size_in_mb

-- The main block, with `sys.argv`.
unfoldable pub main : Urandom → List String → Run
unfolding generate_data
main urandom (_ ∷ filename ∷ size ∷ []) = with_size urandom filename (int_of_text (codes size))
main urandom _ = usage

length-write_from :
    (urandom : Urandom) (call left : ℕ)
    → IsFull urandom
    → length (write_from urandom call left) ≡ left * (1024 * 1024)
unfolding write_from
length-write_from urandom call zero full = refl
length-write_from urandom call (suc left) full =
    length-append (urandom call (1024 * 1024)) (write_from urandom (suc call) left)
    ∙ omega (arith, full call (1024 * 1024), length-write_from urandom (suc call) left full)

-- A run with two arguments, of which the second is an integer, writes a file of so many mebibytes,
-- and an empty one if the integer is negative, where each call of urandom gives as many bytes as it
-- is asked for.
pub main-length :
    (urandom : Urandom) (program filename size : String) (n : ℤ)
    → IsFull urandom
    → int_of_text (codes size) ≡ some n
    → (content : Bytes) × (main urandom (program ∷ filename ∷ size ∷ [])
        ≡ written (path_of filename (codes filename)) content)
      × (length content ≡ pos_part n * 2 ^ 20)
unfolding main generate_data
main-length urandom program filename size n full parsed = (
  write_from urandom 0 (pos_part n),
  ap (with_size urandom filename) parsed,
  length-write_from urandom 0 (pos_part n) full ∙ omega arith,
)
