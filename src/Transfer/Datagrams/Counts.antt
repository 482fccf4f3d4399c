-- ===== src/Transfer/Datagrams/Counts.antt =====
-- Counts of datagrams that do not depend on their order, and what the UDP client and server of tema1
-- count.
use mathlib.Core.List.{Perm, Permᴰ}
use mathlib.Core.Logic.{∥∥₁_elim}
use native.Mathlib.Nat.{ℕ_set}
use laborator_pcd.Base.{
  ℕ, ◌+◌, ◌<◌, ◌^◌, ◌≡◌, refl, sym, ap, ◌∙◌, ◌==◌, false, if◌then◌else◌, Bool-cases, inl, inr, List,
  [], ◌∷◌, ◌++◌, arith, length,
}
use laborator_pcd.Transfer.Wire.{Bytes}
use laborator_pcd.Transfer.Tcp.{Stats, no_stats, add_block}
use laborator_pcd.Transfer.Datagrams.{send_udp, UdpServer, receive_udp, receive_all_udp}

-- The sum of a weight over a list, which does not depend on the list's order.
abbrev pub sum_of : {A : Type 0} → (A → ℕ) → List A → ℕ
sum_of w [] = 0
sum_of w (x ∷ xs) = w x + sum_of w xs

module _ {A : Type 0} (w : A → ℕ) where
  sum_of-append : (xs ys : List A) → sum_of w (xs ++ ys) ≡ sum_of w xs + sum_of w ys
  sum_of-append [] ys = omega arith
  sum_of-append (x ∷ xs) ys = omega (arith, sum_of-append xs ys)

  sum_of_Permᴰ : {xs ys : List A} → Permᴰ xs ys → sum_of w xs ≡ sum_of w ys
  sum_of_Permᴰ Permᴰ.nil = refl
  sum_of_Permᴰ (Permᴰ.cons e p) = omega (arith, ap w e, sum_of_Permᴰ p)
  sum_of_Permᴰ (Permᴰ.swap e f) = omega (arith, ap w e, ap w f)
  sum_of_Permᴰ (Permᴰ.trans p q) = sum_of_Permᴰ p ∙ sum_of_Permᴰ q

  sum_of_Perm : {xs ys : List A} → Perm xs ys → sum_of w xs ≡ sum_of w ys
  sum_of_Perm {xs} {ys} p = ∥∥₁_elim p (ℕ_set (sum_of w xs) (sum_of w ys)) sum_of_Permᴰ

  -- What arrives and what is lost make up what was sent.
  pub sum_of_parts :
      (arrived lost : List A) {sent : List A}
      → Perm (arrived ++ lost) sent
      → sum_of w arrived + sum_of w lost ≡ sum_of w sent
  sum_of_parts arrived lost p = sym (sum_of-append arrived lost) ∙ sum_of_Perm p

abbrev pub total : List Bytes → ℕ
total = sum_of length

abbrev pub one : {A : Type 0} → A → ℕ
one x = 1

abbrev pub if_empty : Bytes → ℕ
if_empty b = if length b == 0 then 1 else 0

-- The counts of some blocks.
unfoldable pub counted : Stats → List Bytes → Stats
counted stats [] = stats
counted stats (b ∷ bs) = counted (add_block stats b) bs

pub counted-packets :
    (stats : Stats) (bs : List Bytes)
    → stats.packets + sum_of one bs < 2 ^ 64
    → (counted stats bs).packets ≡ stats.packets + sum_of one bs
unfolding counted
counted-packets stats [] room = omega arith
counted-packets stats (b ∷ bs) room =
    counted-packets (add_block stats b) bs (omega arith) ∙ omega arith

pub counted-byte_count :
    (stats : Stats) (bs : List Bytes)
    → stats.byte_count + total bs < 2 ^ 64
    → (counted stats bs).byte_count ≡ stats.byte_count + total bs
unfolding counted
counted-byte_count stats [] room = omega arith
counted-byte_count stats (b ∷ bs) room =
    counted-byte_count (add_block stats b) bs (omega arith) ∙ omega arith

pub send_udp-counted :
    (stats : Stats) (bs : List Bytes) → send_udp stats bs ≡ (bs ++ ([] ∷ []), counted stats bs)
unfolding send_udp counted
send_udp-counted stats [] = refl
send_udp-counted stats (b ∷ bs) = ap (λ x. (b ∷ x.0, x.1)) (send_udp-counted (add_block stats b) bs)

receive_udp-full :
    (s : UdpServer) (d : Bytes)
    → (length d == 0) ≡ false
    → receive_udp s d ≡ record s { stats = add_block s.stats d }
unfolding receive_udp
receive_udp-full s d e = rw e refl

pub receive_all_udp-counted :
    (s : UdpServer) (arrived : List Bytes)
    → sum_of if_empty arrived ≡ 0
    → receive_all_udp s (arrived ++ ([] ∷ []))
      ≡ record { stats = no_stats; printed = counted s.stats arrived ∷ s.printed }
unfolding receive_all_udp receive_udp counted
receive_all_udp-counted s [] full = refl
receive_all_udp-counted s (d ∷ ds) full = elim (Bool-cases (length d == 0)) [
  | inl e ↦ absurd (omega (arith, rw e at full))
  | inr e ↦
      ap (λ s'. receive_all_udp s' (ds ++ ([] ∷ []))) (receive_udp-full s d e)
      ∙ receive_all_udp-counted (record s { stats = add_block s.stats d }) ds
          (omega (arith, rw e at full))
]
