-- ===== src/Checks/Datagrams.antt =====
-- Transfers of three blocks without acknowledgements: the last block arrives first, and the second
-- one is lost.
use mathlib.Core.List.{Perm, Permᴰ}
use laborator_pcd.Base.{refl, List, [], ◌∷◌, ◌++◌, arith}
use laborator_pcd.Transfer.Wire.{Bytes, UdpPayload}
use laborator_pcd.Transfer.Datagrams.Losses.{payloads, IsAccounted, transfers-IsAccounted}

abbrev three_blocks : List Bytes
three_blocks = (1 ∷ 2 ∷ []) ∷ (3 ∷ 4 ∷ []) ∷ (5 ∷ []) ∷ []

abbrev arrived : List UdpPayload
arrived = record { seq = 2; data_ = 5 ∷ [] } ∷ record { seq = 0; data_ = 1 ∷ 2 ∷ [] } ∷ []

abbrev lost : List UdpPayload
lost = record { seq = 1; data_ = 3 ∷ 4 ∷ [] } ∷ []

parts : Perm (arrived ++ lost) (payloads 0 three_blocks)
unfolding payloads
parts = ∣ Permᴰ.trans (Permᴰ.swap refl refl) (Permᴰ.cons refl (Permᴰ.swap refl refl)) ∣₁

transfers-IsAccounted_example : IsAccounted three_blocks arrived lost []
transfers-IsAccounted_example =
    transfers-IsAccounted three_blocks arrived lost (omega arith, (omega arith, (omega arith, tt)))
      (omega arith) (omega arith) parts []
