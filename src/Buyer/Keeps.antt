-- ===== src/Buyer/Keeps.antt =====
-- Maps of requests before and after an operation: a request that has ended keeps its status and
-- its result.
use remote_subagent_protocol.Prelude.{
  String, ◌≡◌, refl, ◌∙◌, true, false, Option, some, eq_iff, ◌==◌, inl, inr, Bool-cases,
}
use remote_subagent_protocol.Prelude.Dict.{Dict, get, put, get-put}
use remote_subagent_protocol.Contracts.{is_terminal}
use remote_subagent_protocol.Buyer.Request.{Request}
use remote_subagent_protocol.Buyer.Client.{Client}
use remote_subagent_protocol.Buyer.Metrics.{report_buyer_metric, report_buyer_metric-keeps}

pub record Kept (r r' : Request) : Type 0 where
  pub status : r'.status ≡ r.status
  pub result_package : r'.result_package ≡ r.result_package

pub record KeptIn (m : Dict Request) (id : String) (r : Request) : Type 0 where
  pub entry : Request
  pub found : get m id ≡ some entry
  pub kept : Kept r entry

abbrev pub Keeps : Dict Request → Dict Request → Type 0
Keeps m m' =
    (id : String) (r : Request) → get m id ≡ some r → is_terminal r.status ≡ true → KeptIn m' id r

pub Keeps-refl : (m : Dict Request) → Keeps m m
Keeps-refl m id r e t = record {
  entry = r;
  found = e;
  kept = record { status = refl; result_package = refl };
}

pub Keeps-trans : (a b c : Dict Request) → Keeps a b → Keeps b c → Keeps a c
Keeps-trans a b c h k id r e t =
    let first = h id r e t in
    let then_ = k id first.entry first.found (rw first.kept.status t) in
    record {
      entry = then_.entry;
      found = then_.found;
      kept = record {
        status = then_.kept.status ∙ first.kept.status;
        result_package = then_.kept.result_package ∙ first.kept.result_package;
      };
    }

-- What a write under the key must be for the map to keep what has ended.
abbrev pub MayReplace : Dict Request → String → Request → Type 0
MayReplace m k r' =
    (old : Request) → get m k ≡ some old → is_terminal old.status ≡ true → Kept old r'

pub Kept-report :
    (client : Option Client) (event : String) (code : Option String) (old r : Request)
    → Kept old r
    → Kept old (report_buyer_metric client event code r).0
Kept-report client event code old r h =
    let reported = report_buyer_metric-keeps client event code r in
    record { status = reported.0 ∙ h.status; result_package = reported.1 ∙ h.result_package }

-- A write keeps ended requests if it keeps the one that it replaces.
pub Keeps-put :
    (m : Dict Request) (k : String) (r' : Request) → MayReplace m k r' → Keeps m (put m k r')
Keeps-put m k r' h id r e t = elim (Bool-cases (k == id)) [
  | inl same ↦ record {
    entry = r';
    found = get-put m k id r' ∙ (rw same);
    kept = h r (rw ((eq_iff k id).0 same) e) t;
  }
  | inr other ↦ record {
    entry = r;
    found = get-put m k id r' ∙ (rw other e);
    kept = record { status = refl; result_package = refl };
  }
]

-- A write over a request in progress leaves every ended request exactly as it was.
pub put_over_active :
    (m : Dict Request) (k id : String) (old new r : Request)
    → get m k ≡ some old
    → is_terminal old.status ≡ false
    → get m id ≡ some r
    → is_terminal r.status ≡ true
    → get (put m k new) id ≡ some r
put_over_active m k id old new r there live e t = elim (Bool-cases (k == id)) [
  | inl same ↦ cc ((eq_iff k id).0 same)
  | inr other ↦ get-put m k id new ∙ (rw other e)
]
