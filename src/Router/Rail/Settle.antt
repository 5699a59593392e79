-- ===== src/Router/Rail/Settle.antt =====
-- The settlement of a payment, as the hook after the response writes it down, and the caps.
use arcagentx.Prelude.{
  ℕ, ◌-◌, ◌≤◌, ◌≡◌, refl, ap, inl, inr, Bool, Option, none, some, List, [], ◌∷◌, arith, Bool-cases,
  ◌==◌, ◌⊎◌, leb, ◌&&◌,
}
use arcagentx.Prelude.Int.{pos, ◌≤ℤ◌, pos_part, neg_part, int_laws}
use arcagentx.Prelude.Text.{Text, text_eq}
use arcagentx.Accounting.{Usdc6}
use arcagentx.Ledger.{
  MemoryLedger, PaymentRecord, PaymentPatch, signed, assign, assign_first, find_row, update, counts,
  either,
}
use arcagentx.Ledger.Spent.{share, spent_since-update, update-noted, Nonneg}
use arcagentx.Router.Rail.{
  RailConfig, Request, SettleResponse, day_ms, on_response, response_patch, row_patch, taken,
  is_success, said_amount,
}
use arcagentx.Router.Rail.Window.{Within, Within-later}

-- The settlement took no more than was signed for.
abbrev pub TookNoMore : PaymentRecord → Option SettleResponse → Type 0
TookNoMore rec settle =
    (a : Usdc6)
    → taken (is_success settle) rec.scheme (said_amount settle) ≡ some a
    → a ≤ℤ rec.amount

pub Nonneg-assign_first :
    (id : ℕ) (p : PaymentPatch) (rs : List PaymentRecord)
    → ((r : PaymentRecord) → pos 0 ≤ℤ r.amount → pos 0 ≤ℤ (assign p r).amount)
    → Nonneg rs
    → Nonneg (assign_first id p rs)
unfolding assign_first
Nonneg-assign_first id p [] keep h = tt
Nonneg-assign_first id p (r ∷ rs) keep (q, h) = elim (Bool-cases (r.id == id)) [
  | inl here ↦ rw here (keep r q, h)
  | inr other ↦ rw other (q, Nonneg-assign_first id p rs keep h)
]

-- A row whose amount shrinks counts for no more than before.
pub share-shrinks :
    (agent : Text) (since : ℕ) (pay_to : Option Text) (r : PaymentRecord) (p : PaymentPatch)
    → r.status ≡ signed
    → pos 0 ≤ℤ r.amount
    → either p.amount r.amount ≤ℤ r.amount
    → share agent since pay_to (assign p r) ≤ℤ share agent since pay_to r
unfolding counts assign
share-shrinks agent since pay_to r p e h k =
    rw (e, share)
      (elim (Bool-cases (text_eq r.agent_id agent && leb since r.at)) [
        | inl mine ↦ ground arith
        | inr other ↦ ground arith
      ])

module _ (now : ℕ) (r : Request) (rec : PaymentRecord) where
  patch_amount :
      (settle : Option SettleResponse) (error : Option Text)
      → let a = (response_patch now r.started_at rec settle error).amount in
        (a ≡ none) ⊎ (a ≡ taken (is_success settle) rec.scheme (said_amount settle))
  unfolding response_patch
  patch_amount none none = inl refl
  patch_amount none (some e) = inr refl
  patch_amount (some s) error = inr refl

  taken_nonneg :
      (ok : Bool) (scheme : Text) (said : Option Text) (x : Usdc6)
      → pos 0 ≤ℤ x
      → pos 0 ≤ℤ either (taken ok scheme said) x
  unfolding taken
  taken_nonneg ok scheme none x h = h
  taken_nonneg ok scheme (some s) x h = ground arith

  either_fits :
      (o : Option Usdc6) (x : Usdc6) → ((a : Usdc6) → o ≡ some a → a ≤ℤ x) → either o x ≤ℤ x
  either_fits none x h = omega arith
  either_fits (some a) x h = h a refl

  module _ (settle : Option SettleResponse) (error : Option Text) where
    patch : PaymentPatch
    patch = response_patch now r.started_at rec settle error

    patch-nonneg : (x : PaymentRecord) → pos 0 ≤ℤ x.amount → pos 0 ≤ℤ (assign patch x).amount
    unfolding patch assign
    patch-nonneg x p = elim (patch_amount settle error) [
      | inl same ↦ rw same p
      | inr new ↦ rw new (taken_nonneg _ rec.scheme (said_amount settle) x.amount p)
    ]

    patch-fits : TookNoMore rec settle → either patch.amount rec.amount ≤ℤ rec.amount
    unfolding patch
    patch-fits fits = elim (patch_amount settle error) [
      | inl same ↦ rw same (omega arith)
      | inr new ↦ rw new (either_fits _ rec.amount fits)
    ]

responded-Within :
    (cfg : RailConfig) (t now : ℕ) (r : Request) (rec : PaymentRecord)
    (settle : Option SettleResponse) (error : Option Text) (l : MemoryLedger)
    → t ≤ now
    → find_row rec.id l.rows ≡ some rec
    → rec.status ≡ signed
    → pos 0 ≤ℤ rec.amount
    → TookNoMore rec settle
    → Within cfg t l
    → Within cfg now (update rec.id (patch now r rec settle error) l)
responded-Within cfg t now r rec settle error l later found e p fits w =
    let w' = Within-later cfg t now l later w in
    record {
      nonneg =
          unfold update patch in
          Nonneg-assign_first rec.id _ l.rows (patch-nonneg now r rec settle error) w.nonneg;
      capped = λ sel.
          let moved =
            spent_since-update cfg.agent_id (now - day_ms) sel rec.id (patch now r rec settle error)
              l rec found in
          unfold patch in
          omega (
            int_laws,
            ap pos_part moved,
            ap neg_part moved,
            share-shrinks cfg.agent_id (now - day_ms) sel rec (patch now r rec settle error) e p
                (patch-fits now r rec settle error fits),
            w'.capped sel,
          );
    }

-- A patch of neither the amount nor the status keeps the agent within its caps.
noted-Within :
    (cfg : RailConfig) (t id : ℕ) (p : PaymentPatch) (l : MemoryLedger)
    → p.amount ≡ none
    → p.status ≡ none
    → Within cfg t l
    → Within cfg t (update id p l)
noted-Within cfg t id p l e f w = record {
  nonneg =
      unfold update in Nonneg-assign_first id p l.rows (λ x q. unfold assign in rw e q) w.nonneg;
  capped = λ sel. rw (update-noted cfg.agent_id (t - day_ms) sel p id l e f) (w.capped sel);
}

row_patch_noted :
    (settle : Option SettleResponse) (error : Option Text)
    → ((row_patch settle error).amount ≡ none) × ((row_patch settle error).status ≡ none)
unfolding row_patch
row_patch_noted none none = (refl, refl)
row_patch_noted none (some e) = (refl, refl)
row_patch_noted (some s) error = (refl, refl)

-- Hearing of the settlement of a signed payment whose amount is not negative keeps the agent within
-- its caps, if no more was taken than was signed for.
pub on_response-Within :
    (cfg : RailConfig) (t now : ℕ) (r : Request) (rec : PaymentRecord)
    (settle : Option SettleResponse) (error : Option Text) (l : MemoryLedger)
    → t ≤ now
    → find_row rec.id l.rows ≡ some rec
    → rec.status ≡ signed
    → pos 0 ≤ℤ rec.amount
    → TookNoMore rec settle
    → Within cfg t l
    → Within cfg now (on_response now r rec settle error l)
unfolding on_response
on_response-Within cfg t now r rec settle error l later found e p fits w =
    let (amount, status) = row_patch_noted settle error in
    noted-Within cfg now rec.id (row_patch settle error) _ amount status
      (unfold patch in responded-Within cfg t now r rec settle error l later found e p fits w)
