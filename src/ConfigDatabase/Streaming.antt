-- ===== src/ConfigDatabase/Streaming.antt =====
-- The chunks that stream an entry to a tile hold its value.
use coretools.Prelude.{
  ℕ, zero, suc, ◌+◌, ◌≤◌, ◌≡◌, ◌⊎◌, inl, inr, refl, ap, List, [], ◌∷◌, ◌++◌, length, take, drop,
  take-append-drop, length-drop, arith,
}
use coretools.ConfigDatabase.{ConfigEntry, SetRpc, rpcs_from, generate_rpcs}

-- The bytes of the chunks, one after the other.
abbrev pub received : List SetRpc → List ℕ
received [] = []
received (rpc ∷ l) = rpc.chunk ++ received l

-- The RPCs go to the tile and the variable, each chunk has from 1 to 16 bytes, and its offset is the
-- number of bytes before it.
abbrev pub AreInOrder : ℕ → ℕ → ℕ → List SetRpc → Type 0
AreInOrder address var_id offset [] = Unit
AreInOrder address var_id offset (rpc ∷ l) =
    (rpc.address ≡ address)
    × (rpc.var_id ≡ var_id)
    × (rpc.offset ≡ offset)
    × (1 ≤ length rpc.chunk)
    × (length rpc.chunk ≤ 16)
    × AreInOrder address var_id (offset + length rpc.chunk) l

length-take_le : (n : ℕ) (l : List ℕ) → length (take n l) ≤ n
length-take_le zero l = omega arith
length-take_le (suc n) [] = omega arith
length-take_le (suc n) (x ∷ l) = omega (arith, length-take_le n l)

-- Only the last chunk may be shorter.
full_or_last : (n : ℕ) (l : List ℕ) → (length (take n l) ≡ n) ⊎ (drop n l ≡ [])
full_or_last zero l = inl refl
full_or_last (suc n) [] = inr refl
full_or_last (suc n) (x ∷ l) = elim (full_or_last n l) [ inl e ↦ inl (ap suc e) | inr e ↦ inr e ]

rpcs_from-nil : (rounds a v o : ℕ) → rpcs_from rounds a v o [] ≡ []
unfolding rpcs_from
rpcs_from-nil zero a v o = refl
rpcs_from-nil (suc n) a v o = refl

-- The rest stands behind the chunk, or is empty.
behind_chunk :
    (n a v o : ℕ) (l : List ℕ)
    → AreInOrder a v (o + 16) (rpcs_from n a v (o + 16) (drop 15 l))
    → AreInOrder a v (o + suc (length (take 15 l))) (rpcs_from n a v (o + 16) (drop 15 l))
behind_chunk n a v o l h = elim (full_or_last 15 l) [
  | inl e ↦ let same : o + suc (length (take 15 l)) ≡ o + 16 = omega (arith, e) in rw same h
  | inr e ↦ rw (e, rpcs_from-nil n a v (o + 16)) tt
]

rpcs_from-received :
    (rounds address var_id offset : ℕ) (l : List ℕ)
    → length l ≤ rounds
    → let rpcs = rpcs_from rounds address var_id offset l in
      (received rpcs ≡ l) × AreInOrder address var_id offset rpcs
unfolding rpcs_from
rpcs_from-received zero a v o [] h = (refl, tt)
rpcs_from-received zero a v o (b ∷ l) h = absurd (omega arith)
rpcs_from-received (suc n) a v o [] h = (refl, tt)
rpcs_from-received (suc n) a v o (b ∷ l) h =
    let (rest, order) =
      rpcs_from-received n a v (o + 16) (drop 15 l) (omega (arith, length-drop 15 l)) in
    (
      rw rest (take-append-drop 16 (b ∷ l)),
      (
        refl,
        refl,
        refl,
        omega arith,
        omega (arith, length-take_le 15 l),
        behind_chunk n a v o l order,
      ),
    )

-- The RPCs for an entry carry the bytes behind its id, in order and in chunks of 16 at most, each at the
-- offset that the chunks before it have filled.
pub generate_rpcs-received :
    (entry : ConfigEntry) (address : ℕ)
    → let rpcs = generate_rpcs entry address in
      (received rpcs ≡ drop 2 entry.bytes) × AreInOrder address entry.var_id 0 rpcs
unfolding generate_rpcs
generate_rpcs-received entry address =
    rpcs_from-received (length entry.bytes) address entry.var_id 0 (drop 2 entry.bytes)
      (omega (arith, length-drop 2 entry.bytes))
