-- ===== src/Reverts/Table.antt =====
-- The table of the errors that the contracts raise (`ERROR_TEXT` of frontend/lib/errors.ts).
use clearbook.Prelude.{ℕ, Option, none, some, [], ◌∷◌, ◌++◌}
use clearbook.Text.{Text, codes}
use clearbook.Text.Assoc.{Assoc}

pub record ErrorText : Type 0 where
  pub explanation : Text
  pub condition : Option ℕ

abbrev entry : Text → Text → Option ℕ → Text × ErrorText
entry name explanation condition =
    (name, record { explanation = explanation; condition = condition })

-- EvidenceVault.
abbrev vault_errors : Assoc ErrorText
vault_errors =
    entry (codes "ProofRejected")
      (codes "The Block Prover precompile did not accept this proof. The transaction was "
        ++ (codes "not shown to be included in an attested source-chain block."))
      none
    ∷ entry (codes "SourceTxReverted")
        (codes "The source-chain transaction was included but reverted. A reverted transfer "
          ++ (codes "moved no value, so it cannot back a claim. The precompile does not check "
              ++ (codes "this — Clearbook does.")))
        none
    ∷ entry (codes "LogIndexOutOfRange") (codes "The receipt does not contain a log at that index.")
        none
    ∷ entry (codes "NotATransferLog")
        (codes "That log is not an ERC-20 Transfer. It either has a different event "
          ++ (codes "signature, or it has four topics — an ERC-721 transfer, whose token id "
              ++ (codes "would otherwise be misread as an amount.")))
        none
    ∷ entry (codes "MalformedTransferLog")
        (codes "The log carries a Transfer signature but its data is not a single 32-byte "
          ++ (codes "amount."))
        none
    ∷ entry (codes "UnsupportedTxType")
        (codes "The transaction type is outside the range the EVM decoder supports (types "
          ++ (codes "0–4)."))
        none
    ∷ entry (codes "UnknownFact")
        (codes "No verified fact exists at that identifier. Evidence must be ingested "
          ++ (codes "before it can be cited."))
        none
    ∷ entry (codes "BatchTooLarge")
        (codes "The batch exceeds the precompile’s maximum batch size of 10.") none
    ∷ entry (codes "BatchRangeExceeded")
        (codes "The batch spans more than 1000 blocks, which one shared continuity proof "
          ++ (codes "cannot cover."))
        none
    ∷ entry (codes "BatchLengthMismatch") (codes "The batch arrays are not all the same length.")
        none
    ∷ entry (codes "EmptyBatch") (codes "The batch contains no items.") none
    ∷ []

-- The challenge predicate, with the number of each condition.
abbrev challenge_errors : Assoc ErrorText
challenge_errors =
    entry (codes "WrongStatus")
      (codes "This loan is not in a state that permits the action. A challenge requires a "
        ++ (codes "claimed repayment; terminal states cannot transition."))
      (some 1)
    ∷ entry (codes "WindowClosed")
        (codes "The challenge window for this loan has closed. It can now only be finalised.")
        (some 2)
    ∷ entry (codes "ChainMismatch")
        (codes "The two transfers are on different source chains. Comparing them would be "
          ++ (codes "meaningless — a Sepolia transfer cannot be weighed against a mainnet one."))
        (some 3)
    ∷ entry (codes "TokenMismatch")
        (codes "The two transfers are of different tokens, so they do not represent the "
          ++ (codes "same money."))
        (some 4)
    ∷ entry (codes "NotTheSamePayer")
        (codes "The address funded by the treasury is not the address that repaid. Without "
          ++ (codes "that link the flow is adjacent, not circular."))
        (some 5)
    ∷ entry (codes "FundingNotFromBoundTreasury")
        (codes "The funding transfer did not originate from a treasury this originator "
          ++ (codes "bound by signature. Funding from an unbound address falls outside the "
              ++ (codes "covenant by construction.")))
        (some 6)
    ∷ entry (codes "FundingBelowRepayment")
        (codes "The payer received less than it repaid, so the repayment cannot have been "
          ++ (codes "sourced entirely from the originator’s own funds."))
        (some 7)
    ∷ entry (codes "FundingNotBefore")
        (codes "The funding transfer occurred after the repayment it is alleged to have "
          ++ (codes "funded."))
        (some 8)
    ∷ entry (codes "OutsideWindow")
        (codes "The two transfers are further apart than the circular window this "
          ++ (codes "originator published and made immutable."))
        (some 9)
    ∷ entry (codes "SameFact") (codes "The cited funding leg is the repayment itself.") (some 10)
    ∷ entry (codes "DisbursementNotFunding")
        (codes "The cited funding leg is the loan’s own disbursement. A genuine loan is "
          ++ (codes "treasury → borrower → treasury; citing the disbursement would make every "
              ++ (codes "honest loan look circular.")))
        (some 11)
    ∷ []

-- Registration, bonds and claims.
abbrev book_errors : Assoc ErrorText
book_errors =
    entry (codes "BondTooSmall") (codes "The deposit is below the minimum bond.") none
    ∷ entry (codes "BadWindow") (codes "A window parameter is outside its permitted range.") none
    ∷ entry (codes "CovenantRequired")
        (codes "An originator must opt into CIRCULAR_REPAYMENT to register.") none
    ∷ entry (codes "BadSignature")
        (codes "The signature was not produced by the address being bound.") none
    ∷ entry (codes "AlreadyBound")
        (codes "That address is already bound to an originator. An address binds to at most "
          ++ (codes "one, ever."))
        none
    ∷ entry (codes "NotOwner")
        (codes "Only the originator’s owner account may perform this action.") none
    ∷ entry (codes "InactiveOriginator") (codes "That originator is not active.") none
    ∷ entry (codes "Overexposed")
        (codes "The requested withdrawal would leave the bond below the exposure of open "
          ++ (codes "loans."))
        none
    ∷ entry (codes "CooldownActive")
        (codes "The post-claim cooldown is still running. This is what prevents an "
          ++ (codes "originator from pulling its bond before a challenger can acquire proofs."))
        none
    ∷ entry (codes "TransferFailed")
        (codes "A native transfer failed. The recipient rejected the funds.") none
    ∷ entry (codes "FactMismatch")
        (codes "The cited evidence does not match the claim: token, counterparty or amount "
          ++ (codes "differs from what was registered."))
        none
    ∷ entry (codes "TreasuryNotBound")
        (codes "The evidence does not originate from an address this originator bound by "
          ++ (codes "signature."))
        none
    ∷ entry (codes "FactAlreadyUsed")
        (codes "That evidence already backs another claim. Each verified fact backs at most "
          ++ (codes "one."))
        none
    ∷ entry (codes "InsufficientBond")
        (codes "The originator’s free bond cannot cover another loan.") none
    ∷ entry (codes "AmountTooLow") (codes "The repayment does not cover the principal.") none
    ∷ entry (codes "NotYetMature") (codes "The loan has not reached its maturity block.") none
    ∷ entry (codes "WindowOpen")
        (codes "The challenge window is still open. This loan cannot be settled yet.") none
    ∷ []

-- Inherited from OpenZeppelin.
abbrev inherited_errors : Assoc ErrorText
inherited_errors =
    entry (codes "ReentrancyGuardReentrantCall") (codes "A reentrant call was blocked.") none
    ∷ entry (codes "ECDSAInvalidSignature") (codes "The signature is not a valid ECDSA signature.")
        none
    ∷ entry (codes "ECDSAInvalidSignatureLength") (codes "The signature is the wrong length.") none
    ∷ entry (codes "ECDSAInvalidSignatureS")
        (codes "The signature has a malleable s-value and was rejected.") none
    ∷ entry (codes "InvalidShortString") (codes "A string parameter could not be encoded.") none
    ∷ entry (codes "StringTooLong") (codes "A string parameter is too long.") none
    ∷ []

abbrev pub error_table : Assoc ErrorText
error_table = vault_errors ++ (challenge_errors ++ (book_errors ++ inherited_errors))
