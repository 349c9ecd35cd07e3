-- ===== src/Clearance/Legs.antt =====
-- `transferLegs` of frontend/lib/clearance.ts: the transfers of a receipt that the vault would accept,
-- each at its position in the receipt. The hash of `factIdOf` is keccak256 of the four numbers, which
-- the program takes from a library: it is a parameter.
pub mod Positions
use clearbook.Prelude.{
  ℕ, zero, suc, ◌+◌, ◌-◌, Bool, true, false, not, Option, none, some, List, [], ◌∷◌, ◌==◌,
  if◌then◌else◌, length, drop, get_elem?,
}
use clearbook.Text.{Text, codes, text_eq, to_lower_case, starts_with}
use clearbook.Text.Hex.{hex_value}

abbrev pub erc20_transfer_topic : Text
erc20_transfer_topic = codes "0xddf252ad1be2c89b69c2b068fc378daa952ba7f163c4a11628f55a4df523b3ef"

pub record Log : Type 0 where
  pub address : Text
  pub topics : List Text
  pub bytes : Text

pub record TransferLeg : Type 0 where
  pub log_index : ℕ
  pub token : Text
  pub from : Text
  pub to : Text
  pub amount : ℕ
  pub fact_id : Text

-- t.slice(-n)
abbrev pub slice_end : ℕ → Text → Text
slice_end n t = drop (length t - n) t

-- `log.data.startsWith('0x') ? log.data.slice(2) : log.data`
unfoldable pub strip_0x : Text → Text
unfolding starts_with
strip_0x t = if starts_with t (codes "0x") then drop 2 t else t

-- `0x${topic.slice(-40)}`
abbrev pub topic_address : Text → Text
topic_address topic = b'0' ∷ b'x' ∷ slice_end 40 topic

module _ (identity : ℕ → ℕ → ℕ → ℕ → Text) where
  unfoldable pub fact_id_of : ℕ → ℕ → ℕ → ℕ → Text
  fact_id_of chain_key block_height tx_index log_index =
      identity chain_key block_height tx_index log_index

  module _ (chain_key block_height tx_index : ℕ) where
    -- The guards on one log, once it has exactly three topics.
    abbrev pub leg_with : ℕ → Log → Text → Text → Text → Option TransferLeg
    leg_with log_index log t0 t1 t2 =
        let bytes = strip_0x log.bytes in
        if not (text_eq (to_lower_case t0) erc20_transfer_topic)
        then none
        else if not (length bytes == 64)
        then none
        else some (record {
          log_index = log_index;
          token = log.address;
          from = topic_address t1;
          to = topic_address t2;
          amount = hex_value bytes;
          fact_id = fact_id_of chain_key block_height tx_index log_index;
        })

    -- `log.topics.length !== 3` returns at once.
    abbrev pub leg_by_topics : ℕ → Log → List Text → Option TransferLeg
    leg_by_topics log_index log (t0 ∷ t1 ∷ t2 ∷ []) = leg_with log_index log t0 t1 t2
    leg_by_topics log_index log [] = none
    leg_by_topics log_index log (t0 ∷ []) = none
    leg_by_topics log_index log (t0 ∷ t1 ∷ []) = none
    leg_by_topics log_index log (t0 ∷ t1 ∷ t2 ∷ t3 ∷ more) = none

    unfoldable pub leg_of : ℕ → Log → Option TransferLeg
    unfolding fact_id_of
    leg_of log_index log = leg_by_topics log_index log log.topics

    abbrev pub push : Option TransferLeg → List TransferLeg → List TransferLeg
    push none legs = legs
    push (some leg) legs = leg ∷ legs

    -- `logs.forEach((log, logIndex) => …)`
    unfoldable pub legs_from : ℕ → List Log → List TransferLeg
    unfolding leg_of
    legs_from log_index [] = []
    legs_from log_index (log ∷ logs) = push (leg_of log_index log) (legs_from (log_index + 1) logs)

    unfoldable pub transfer_legs : List Log → List TransferLeg
    unfolding legs_from
    transfer_legs logs = legs_from 0 logs
