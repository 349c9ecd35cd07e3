-- ===== src/Console/Accepted.antt =====
-- The transactions of the console against the guards of the contract: the wallet opens only for a
-- challenge that the contract would accept, as far as the page has read what the contract has stored.
use clearbook.Prelude.{
  ℕ, ◌≡◌, refl, true, Bool-cases, inl, inr, Option, none, some, List, [], ◌∷◌, get_elem?,
  All-get_elem?, arith,
}
use mathlib.Core.Path.{subst}
use clearbook.Text.{Text}
use clearbook.Text.Hex.{is_hash, IsHexString, AllHex-every, hex_string_value}
use clearbook.Text.Parts.{trim}
use clearbook.Contract.{ChainFact, LoanView, challenge_guards}
use clearbook.Protocol.{TransferFact, Loan, Originator}
use clearbook.Predicate.{dry_run, apply_treasury_binding}
use clearbook.Predicate.Agrees.{IsLoadedFrom, IsLoanOf, preview-eq-guards}
use clearbook.Console.{Site, selected_loan, originator_for, funding_fact_id, owner_of}
use clearbook.Console.Ending.{Console}
use clearbook.Console.Reach.{Click, Reach, IsPreviewed, Reach-IsPreviewed}

-- What the page had loaded at a click is what the contracts have stored: the loan and its originator
-- as `view`, at the block `now`, the two facts as `cf` and `cr`, and `owner` as the originator that the
-- funding address is bound to. Nothing is said of what had not been loaded.
pub record IsInSync (k : Click) (view : LoanView) (now : ℕ) (cf cr : ChainFact) (owner : ℕ)
    : Type 0 where
  pub of_loan :
      (l : Loan) (o : Originator)
      → selected_loan k.selected k.seen ≡ some l
      → originator_for l k.seen ≡ some o
      → IsLoanOf l o view
  pub of_block : (b : ℕ) → k.seen.current_block ≡ some b → b ≡ now
  pub of_funding : (f : TransferFact) → k.seen.fact k.fact_id ≡ some f → IsLoadedFrom f cf
  pub of_repayment :
      (l : Loan) (r : TransferFact)
      → selected_loan k.selected k.seen ≡ some l
      → k.seen.fact l.repayment_fact_id ≡ some r
      → IsLoadedFrom r cr
  pub of_owner :
      (f : TransferFact) (o : ℕ)
      → k.seen.fact k.fact_id ≡ some f
      → k.seen.owner f.from ≡ some o
      → o ≡ owner

is_hash-IsHexString : (a : Text) → is_hash a ≡ true → IsHexString 64 a
unfolding is_hash
is_hash-IsHexString [] h = cc
is_hash-IsHexString (p ∷ []) h = cc
is_hash-IsHexString (p ∷ q ∷ cs) h =
    (ground arith, ground arith, AllHex-every cs (ground arith), ground arith)

funding_fact_id-IsHexString :
    (input id : Text) → funding_fact_id input ≡ some id → IsHexString 64 id
unfolding funding_fact_id
funding_fact_id-IsHexString input id h = elim (Bool-cases (is_hash (trim input))) [
  | inl good ↦
      let made : some (trim input) ≡ some id = rw good at h in
      let same : trim input ≡ id = cc in
      subst (IsHexString 64) same (is_hash-IsHexString (trim input) good)
  | inr bad ↦ let gone : none ≡ some id = rw bad at h in cc
]

-- A preview that promises success has loaded both facts and the owner.
passed-loaded :
    (loan : Loan) (originator : Originator) (repayment funding : Option TransferFact)
    (owner : Option ℕ) (id : Text) (now bond bps : ℕ)
    → (apply_treasury_binding
        (dry_run
          (record {
            loan = loan;
            originator = originator;
            repayment = repayment;
            funding = funding;
            funding_fact_id = id;
            current_block = now;
          })
          bond
          bps)
        owner
        loan.originator_id).would_succeed
      ≡ true
    → (f r : TransferFact) × (o : ℕ) × (funding ≡ some f) × (repayment ≡ some r) × (owner ≡ some o)
unfolding apply_treasury_binding dry_run
passed-loaded loan originator none none owner id now bond bps h = ground arith
passed-loaded loan originator none (some f) owner id now bond bps h = ground arith
passed-loaded loan originator (some r) none owner id now bond bps h = ground arith
passed-loaded loan originator (some r) (some f) none id now bond bps h = ground arith
passed-loaded loan originator (some r) (some f) (some o) id now bond bps h =
    (f, r, o, refl, refl, refl)

module _ (k : Click) (view : LoanView) (now : ℕ) (cf cr : ChainFact) (owner : ℕ)
    (sync : IsInSync k view now cf cr owner) where
  previewed-accepted :
      IsPreviewed k → challenge_guards view now (hex_string_value k.fact_id) cf cr owner ≡ none
  previewed-accepted p =
      let loan = p.loan in
      let (f, r, o, hf, hr, ho) =
        passed-loaded loan p.originator (k.seen.fact loan.repayment_fact_id) (k.seen.fact k.fact_id)
          (owner_of (k.seen.fact k.fact_id) k.seen) k.fact_id p.now p.params.bond_per_loan
          p.params.bounty_bps p.passed in
      let bound : k.seen.owner f.from ≡ some o = rw hf at ho in
      let same_owner = sync.of_owner f o hf bound in
      let same_block = sync.of_block p.now p.dated in
      let passed = rw (hf, hr, bound) at p.passed in
      let accepted =
        (preview-eq-guards loan p.originator view f r cf cr k.fact_id p.now o p.params.bond_per_loan
            p.params.bounty_bps (sync.of_loan loan p.originator p.found p.owned)
            (sync.of_funding f hf) (sync.of_repayment loan r p.found hr)
            (funding_fact_id-IsHexString k.funding_input k.fact_id p.cited)).0
          passed in
      rw (same_owner, same_block) at accepted

-- Whatever is chosen, typed and clicked on the console and whatever the hooks and the wallet report, in
-- any order, each transaction that the wallet was asked for challenges the chosen loan by its
-- identifier, and where what the page had loaded was what the contracts have stored, no guard of the
-- contract reverts it.
pub Reach-accepted :
    (site : Site) (c : Console) (past : List Click)
    → Reach site c past
    → (i : ℕ) (k : Click) → get_elem? past i ≡ some k
    → (view : LoanView) (now : ℕ) (cf cr : ChainFact) (owner : ℕ) → IsInSync k view now cf cr owner
    → ((l : Loan) × (selected_loan k.selected k.seen ≡ some l) × (l.id ≡ k.loan_id))
      × (challenge_guards view now (hex_string_value k.fact_id) cf cr owner ≡ none)
Reach-accepted site c past reach i k at_i view now cf cr owner sync =
    let p = All-get_elem? IsPreviewed past i k (Reach-IsPreviewed site reach) at_i in
    ((p.loan, p.found, p.named), previewed-accepted k view now cf cr owner sync p)
