-- ===== src/FileLoader/Encoding.antt =====
-- The format of the files: a tree of nodes, and the bytes of a file that holds it.
use odirion_mmoserver.Base.{ℕ, List, [], ◌∷◌, ◌++◌, leb, if◌then◌else◌}
use odirion_mmoserver.FileLoader.{escape, start, end}

-- A node's type, properties and children.
mutual
  pub data Tree : Type 0 where
    tree : ℕ → List ℕ → Trees → Tree

  pub data Trees : Type 0 where
    leaf : Trees
    branch : Tree → Trees → Trees

-- An escape stands before each byte that is one of the three marks.
unfoldable pub escaped : List ℕ → List ℕ
escaped [] = []
escaped (b ∷ bs) = let rest = escaped bs in if leb escape b then escape ∷ b ∷ rest else b ∷ rest

unfoldable mutual
  pub encode : Tree → List ℕ
  encode (tree type ps ts) = start ∷ type ∷ (escaped ps ++ (encode_all ts ++ end ∷ []))

  pub encode_all : Trees → List ℕ
  encode_all leaf = []
  encode_all (branch t ts) = encode t ++ encode_all ts
