-- ===== src/Mainnet/Rewriter/Tests.antt =====
-- The theorems on Rewriter at a pool of two accounts and two transactions.
use xrpl_confluence.Prelude.{String, ◌≡◌, refl, none, some, List, [], ◌∷◌, string_eq, arith}
use xrpl_confluence.Prelude.Dict.{Dict, lookup, insert, erase}
use xrpl_confluence.Mainnet.Rewriter.{
  Wallet, Rewriter, Json, Rewritten, rewritten, new_rewriter, rewrite_all, rewrite, map_address,
  assign, address_at, strip, given, text_in, object_in, text_at, object_at, place, rewrite_address,
  rewrite_object, rewrite_issuer, rewrite_each, judge, is_collapsed, is_issued_by, is_text,
  secret_for, secret_in,
}
use xrpl_confluence.Mainnet.Rewriter.Apart.{rewrite_all-apart}

abbrev texts : Json String
texts = record {
  text = λ r. some r;
  object = λ r. none;
  of_text = λ t. t;
  of_object = λ m. "object";
}

abbrev pool : List Wallet
pool =
    record { classic_address = "rA"; seed = "sA" }
    ∷ record { classic_address = "rB"; seed = "sB" }
    ∷ []

abbrev payments : List (Dict String String)
payments =
    (("Account", "rX") ∷ ("Fee", "10") ∷ ("Destination", "rY") ∷ []) ∷ (("Account", "rX") ∷ []) ∷ []

abbrev outs : List (Rewritten String)
outs =
    rewritten (("Account", "rA") ∷ ("Destination", "rB") ∷ [])
    ∷ rewritten (("Account", "rA") ∷ [])
    ∷ []

abbrev final : Rewriter
final = record { pool = pool; cache = ("rX", 0) ∷ ("rY", 1) ∷ []; counter = 2 }

abbrev asked : String
asked = "rY"

rewrite_all-apart_example : asked ≡ asked
unfolding rewrite_all rewrite map_address assign address_at strip given text_in object_in text_at
    object_at place rewrite_address rewrite_object rewrite_issuer rewrite_each judge is_collapsed
    is_issued_by is_text lookup insert erase new_rewriter
rewrite_all-apart_example =
    rewrite_all-apart texts pool payments outs final asked asked 1 (omega arith) refl (omega arith)
      refl refl

secret_for_test : secret_for final "rB" ≡ some "sB"
unfolding secret_for secret_in
secret_for_test = refl
