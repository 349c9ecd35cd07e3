-- ===== src/Reverts.antt =====
-- What a thrown value tells the reader (frontend/lib/errors.ts). `BaseError.walk` of viem is not part of
-- the repository: an error is given with what the two walks find in it.
pub mod Table
pub mod Vocabulary
use clearbook.Prelude.{ℕ, Bool, true, false, Option, none, some, List, [], ◌∷◌, ◌++◌, if◌then◌else◌}
use clearbook.Text.{Text, codes}
use clearbook.Text.Assoc.{lookup}
use clearbook.Reverts.Table.{ErrorText, error_table}

-- The `ContractFunctionRevertedError` that a walk finds.
pub record Reverted : Type 0 where
  pub error_name : Option Text
  pub reason : Option Text

pub data Thrown : Type 0 where
  -- A `BaseError`: whether the wallet refused, what reverted, its name, short message and message.
  base_error : Bool → Option Reverted → Text → Text → Text → Thrown
  -- Any other `Error`, by its message, and any other value, by its text.
  plain_error other_value : Text → Thrown

pub record DecodedRevert : Type 0 where
  pub name : Text
  pub explanation : Text
  pub condition : Option ℕ
  pub user_rejected : Bool

-- `known?.explanation ?? …` and `known?.condition`
abbrev pub from_table : Text → Option ErrorText → DecodedRevert
from_table name none = record {
  name = name;
  explanation = codes "The contract rejected this call.";
  condition = none;
  user_rejected = false;
}
from_table name (some known) = record {
  name = name;
  explanation = known.explanation;
  condition = known.condition;
  user_rejected = false;
}

abbrev pub decoded_text : Text → Text → DecodedRevert
decoded_text name explanation = record {
  name = name;
  explanation = explanation;
  condition = none;
  user_rejected = false;
}

-- `error.shortMessage || error.message`
abbrev pub decoded_own : Text → Text → Text → DecodedRevert
decoded_own name [] message = decoded_text name message
decoded_own name (c ∷ short_message) message = decoded_text name (c ∷ short_message)

-- The reason, unless it is missing or empty.
abbrev pub decoded_reason : Option Text → DecodedRevert → DecodedRevert
decoded_reason none otherwise = otherwise
decoded_reason (some []) otherwise = otherwise
decoded_reason (some (c ∷ reason)) otherwise = decoded_text (codes "Reverted") (c ∷ reason)

-- The table's entry of the error's name, unless that is missing or empty.
unfoldable pub decoded_name : Option Text → DecodedRevert → DecodedRevert
unfolding lookup
decoded_name none otherwise = otherwise
decoded_name (some []) otherwise = otherwise
decoded_name (some (c ∷ name)) otherwise = from_table (c ∷ name) (lookup (c ∷ name) error_table)

abbrev pub decoded_reverted : Option Reverted → DecodedRevert → DecodedRevert
decoded_reverted none otherwise = otherwise
decoded_reverted (some reverted) otherwise =
    decoded_name reverted.error_name (decoded_reason reverted.reason otherwise)

unfoldable pub decode_revert : Thrown → DecodedRevert
unfolding decoded_name
decode_revert (base_error rejected reverted name short_message message) =
    if rejected
    then record {
      name = codes "Rejected in wallet";
      explanation =
          codes "The request was dismissed in your wallet. "
          ++ codes "Nothing was submitted and no gas was spent.";
      condition = none;
      user_rejected = true;
    }
    else decoded_reverted reverted (decoded_own name short_message message)
decode_revert (plain_error message) = decoded_text (codes "Error") message
decode_revert (other_value text) = decoded_text (codes "Error") text

-- The explanation of an error whose name is known ahead of time.
unfoldable pub explain_error_name : Text → Text
unfolding lookup
explain_error_name name = (from_table name (lookup name error_table)).explanation
