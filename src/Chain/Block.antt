-- ===== src/Chain/Block.antt =====
-- A block, what its signature and its hash cover, and the lottery.
use pokoinpos.Prelude.{
  ℕ, ◌*◌, ◌%◌, ◌^◌, Bool, false, Option, none, some, List, [], ◌∷◌, ◌++◌, if◌then◌else◌, take, ltb,
}
use pokoinpos.Prelude.Int.{ℤ, pos, to_uint64}
use pokoinpos.Prelude.Run.{Run, done}
use pokoinpos.Text.{Text, txt, is_empty}
use pokoinpos.Text.Decimal.{itoa}
use pokoinpos.Base64
use pokoinpos.Crypto.{
  Account, safe_encode, rsa_sign, verify_signature, bytes_to_big_int, big_int_bytes,
}
use pokoinpos.Tx.{SignedTransaction}
use pokoinpos.Genesis.{GenesisMetaData}
use pokoinpos.Platform.{Platform}

abbrev pub block_size : ℕ
block_size = 16

abbrev pub miner_block_reward : ℤ
miner_block_reward = pos 10

abbrev pub lottery_draw_range : ℕ
lottery_draw_range = 1000000000000

pub record Block : Type 0 where
  pub block_type : Text
  pub verification_key : Text
  pub slot : ℤ
  pub draw : ℤ
  pub meta_data : Text
  pub parent_hash : Text
  pub signature : Text
  pub lottery_proof : Text

-- WinsLottery. The product of the two uint64 wraps around.
unfoldable pub wins_lottery : ℤ → ℤ → ℤ → Bool
wins_lottery tickets hardness draw =
    ltb (to_uint64 draw) ((to_uint64 hardness * to_uint64 tickets) % 2 ^ 64)

module _ (pf : Platform) where
  unfoldable pub marshal_for_signature : Block → Text
  marshal_for_signature b = pf.marshal_strings (
      b.block_type
      ∷ b.verification_key
      ∷ itoa b.slot
      ∷ itoa b.draw
      ∷ b.parent_hash
      ∷ (if is_empty b.lottery_proof then [] else b.lottery_proof ∷ []))

  unfoldable pub marshal_block : Block → Text
  marshal_block b = elim (Base64.decode b.signature) [
    | none ↦ marshal_for_signature b
    | some signature ↦ marshal_for_signature b ++ signature
  ]

  unfoldable pub get_block_hash : Block → Text
  get_block_hash b = pf.sha256 (marshal_block b)

  -- The key of a block in the maps of the tree.
  unfoldable pub hash_text : Block → Text
  hash_text b = Base64.encode (get_block_hash b)

  -- The method Sign.
  unfoldable pub sign_block : Block → Account → Text
  sign_block b signer =
      Base64.encode (big_int_bytes (rsa_sign pf.sha256 (marshal_for_signature b) signer.d signer.n))

  unfoldable pub new_block : Option Account → ℤ → ℤ → Text → Text → Block
  new_block winner slot draw parent_hash meta_data =
      let b : Block = record {
        block_type = txt "block";
        verification_key = [];
        slot = slot;
        draw = draw;
        meta_data = meta_data;
        parent_hash = parent_hash;
        signature = [];
        lottery_proof = [];
      } in
      elim winner [
        | none ↦ b
        | some a ↦
            let b' : Block = record b { verification_key = safe_encode a } in
            record b' { signature = sign_block b' a }
      ]

  -- The first eight bytes of a hash, as a number below the range of draws.
  draw_of : Text → ℤ
  draw_of hash = pos (bytes_to_big_int (take 8 hash) % lottery_draw_range)

  unfoldable pub compute_lottery_draw : ℤ → ℤ → Text → ℤ
  unfolding draw_of
  compute_lottery_draw seed slot name =
      draw_of (pf.sha256 (itoa seed ++ txt "|" ++ itoa slot ++ txt "|" ++ name))

  unfoldable pub lottery_proof_message : ℤ → ℤ → Text
  lottery_proof_message seed slot =
      pf.marshal_strings (txt "pokoin-lottery-v1" ∷ itoa seed ∷ itoa slot ∷ [])

  -- SignLotteryProof, for a signer that is not nil.
  unfoldable pub sign_lottery_proof : ℤ → ℤ → Account → Text
  sign_lottery_proof seed slot signer =
      Base64.encode
        (big_int_bytes (rsa_sign pf.sha256 (lottery_proof_message seed slot) signer.d signer.n))

  -- `none` is the result (0, false).
  unfoldable pub compute_lottery_draw_from_proof : Text → Option ℤ
  unfolding draw_of
  compute_lottery_draw_from_proof proof = elim (Base64.decode proof) [
    | none ↦ none
    | some raw ↦ if is_empty raw then none else some (draw_of (pf.sha256 raw))
  ]

  unfoldable pub verify_lottery_proof : ℤ → ℤ → Text → Text → Run Bool
  verify_lottery_proof seed slot name proof = elim (Base64.decode proof) [
    | none ↦ done false
    | some signature ↦ elim (Base64.decode name) [
      | none ↦ done false
      | some pk ↦ verify_signature pf.sha256 (lottery_proof_message seed slot) signature pk
    ]
  ]

  -- The signature test of AddBlock and calculateDepths.
  unfoldable pub block_authentic : Block → Run Bool
  block_authentic b = elim (Base64.decode b.signature) [
    | none ↦ done false
    | some signature ↦ elim (Base64.decode b.verification_key) [
      | none ↦ done false
      | some pk ↦ verify_signature pf.sha256 (marshal_for_signature b) signature pk
    ]
  ]

  unfoldable pub encode_block_transactions : List SignedTransaction → Text
  encode_block_transactions txs = Base64.encode (pf.marshal_transactions txs)

  -- Plain JSON is read too.
  unfoldable pub decode_block_transactions : Text → Option (List SignedTransaction)
  decode_block_transactions meta =
      if is_empty meta
      then some []
      else pf.unmarshal_transactions
          (elim (Base64.decode meta) [ none ↦ meta | some decoded ↦ decoded ])

  unfoldable pub decode_genesis_from_meta : Text → Option GenesisMetaData
  decode_genesis_from_meta meta = elim (pf.unmarshal_genesis meta) [
    | some genesis ↦ some genesis
    | none ↦ elim (Base64.decode meta) [ none ↦ none | some decoded ↦ pf.unmarshal_genesis decoded ]
  ]

  -- NewCandidateBlock.
  unfoldable pub new_candidate_block : Account → ℤ → Text → List SignedTransaction → ℤ → Block
  new_candidate_block winner slot parent_hash txs seed =
      let proof = sign_lottery_proof seed slot winner in
      let draw : ℤ = elim (compute_lottery_draw_from_proof proof) [
        | none ↦ compute_lottery_draw seed slot (safe_encode winner)
        | some d ↦ d
      ] in
      let b = new_block (some winner) slot draw parent_hash (encode_block_transactions txs) in
      let b' : Block = record b { lottery_proof = proof } in
      record b' { signature = sign_block b' winner }
