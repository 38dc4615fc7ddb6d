-- ===== src/Password/Dummy.antt =====
-- The verification against the dummy hash, which is made once and kept.
use baja_valle_service.Prelude.{ℕ, ◌+◌, ◌≡◌, Bool, some, inl, inr, arith, Option-cases, length}
use baja_valle_service.Text.{Text, text_eq}
use baja_valle_service.Node.{Node, NodeLaws, Bytes}
use baja_valle_service.Exec.{ok}
use baja_valle_service.World.{World}
use baja_valle_service.Password.{
  default_params, salt_bytes, hash_bytes, phc_text, hash, verify, dummy_hash, verify_against_dummy,
}
use baja_valle_service.Password.Laws.{verify-phc_text, hash-eq}

-- A text that every password can be verified against.
abbrev pub IsVerifiable : (Db : Type 0) → Node → Text → Type 0
IsVerifiable Db node h =
    (password : Text) (v : World Db) → (b : Bool) × (verify node h password v ≡ (ok b, v))

-- The dummy hash, if it is there, is one.
pub record IsReady {Db : Type 0} (node : Node) (w : World Db) : Type 0 where
  pub dummy : (h : Text) → w.dummy_hash ≡ some h → IsVerifiable Db node h

module _ (node : Node) (laws : NodeLaws node) where
  -- What `hash` writes can be verified against.
  hash-IsVerifiable :
      {Db : Type 0} (password : Text) (w : World Db)
      → (h : Text) × (hash node password w ≡ (ok h, record w { draws = w.draws + 1 }))
        × IsVerifiable Db node h
  hash-IsVerifiable password w =
      let salt : Bytes = node.random_bytes w.draws salt_bytes in
      let long : length salt ≡ salt_bytes = laws.length-random_bytes w.draws salt_bytes in
      let (key, derived, size, written) = hash-eq node laws password w in
      (
        phc_text node default_params salt key,
        written,
        λ other v.
            let (candidate, derived', size') =
              laws.argon2id_total other salt hash_bytes default_params (omega arith) (omega arith)
                (omega arith) (omega arith) (omega arith) in
            (
              text_eq candidate key,
              verify-phc_text node laws salt key candidate other v long size derived' size',
            ),
      )

  -- The dummy verification returns, changes nothing but the draws and the dummy hash, and leaves a
  -- dummy hash that it can be run with again.
  pub verify_against_dummy_lem :
      {Db : Type 0} (password : Text) (w : World Db)
      → IsReady node w
      → (h : Text) × (draws : ℕ) × (verify_against_dummy node password w
          ≡ (ok tt, record w { draws = draws; dummy_hash = some h }))
        × IsVerifiable Db node h
  unfolding verify_against_dummy dummy_hash
  verify_against_dummy_lem {Db} password w ready = elim (Option-cases w.dummy_hash) [
    | inl first ↦
        let v : World Db = record w { draws = w.draws + 1 } in
        let (h, made, good) = hash-IsVerifiable (node.to_base64 (node.random_bytes w.draws 32)) v in
        let v' : World Db = record v { draws = v.draws + 1; dummy_hash = some h } in
        let (b, checked) = good password v' in
        (h, w.draws + 1 + 1, ground (arith, made, checked), good)
    | inr (h, kept) ↦
        let good = ready.dummy h kept in
        let (b, checked) = good password w in (h, w.draws, ground (arith, checked), good)
  ]
