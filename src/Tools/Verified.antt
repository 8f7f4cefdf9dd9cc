-- ===== src/Tools/Verified.antt =====
-- What the exit code of cmd/verify-postcat/main.go says of a directory.
use smtp_gateway.Base.{
  ℕ, suc, ◌+◌, ◌≡◌, ◌⊎◌, inl, inr, refl, ap, ◌∙◌, Option, none, some, Option-cases, List, [], ◌∷◌,
  ◌++◌, length, All, Bytes, arith,
}
use smtp_gateway.Postcat.{Message}
use smtp_gateway.Tools.{Output, failed, verified, read_message, verify}

count : (a n : ℕ) → suc a + n ≡ a + suc n
count a n = omega arith

none_more : (a : ℕ) → a ≡ a + 0
none_more a = omega arith

module _ {T : Type 0} (format_time : T → Bytes) (parse_time : Bytes → Option T) where
  abbrev pub Reads : Bytes × Option Bytes → Type 0
  Reads (name, file) = (m : Message T) × (read_message format_time parse_time file ≡ some m)

  -- All files are good, and counted.
  pub record AllGood (pass : ℕ) (entries : List (Bytes × Option Bytes)) (outs : List (Output T))
      (code : ℕ) : Type 0 where
    pub success : code ≡ 0
    pub readable : All Reads entries
    pub shown : List (Output T)
    pub report : outs ≡ shown ++ verified (pass + length entries) ∷ []

  -- The first bad one is named, and nothing behind it is looked at.
  pub record FirstBad (entries : List (Bytes × Option Bytes)) (outs : List (Output T)) (code : ℕ)
      : Type 0 where
    pub failure : code ≡ 1
    pub good : List (Bytes × Option Bytes)
    pub name : Bytes
    pub file : Option Bytes
    pub behind : List (Bytes × Option Bytes)
    pub split : entries ≡ good ++ (name, file) ∷ behind
    pub readable : All Reads good
    pub unreadable : read_message format_time parse_time file ≡ none
    pub shown : List (Output T)
    pub report : outs ≡ shown ++ failed name ∷ []

  abbrev pub Verdict : ℕ → List (Bytes × Option Bytes) → List (Output T) × ℕ → Type 0
  Verdict pass entries (outs, code) = AllGood pass entries outs code ⊎ FirstBad entries outs code

  good_entry :
      (pass : ℕ) (name : Bytes) (file : Option Bytes) (entries : List (Bytes × Option Bytes))
      (out : Output T) (r : List (Output T) × ℕ)
      → Reads (name, file)
      → Verdict (suc pass) entries r
      → Verdict pass ((name, file) ∷ entries) (out ∷ r.0, r.1)
  good_entry pass name file entries out (outs, code) m (inl h) = inl (record {
    success = h.success;
    readable = (m, h.readable);
    shown = out ∷ h.shown;
    report =
        ap (λ x. out ∷ x)
          (h.report ∙ ap (λ n. h.shown ++ verified n ∷ []) (count pass (length entries)));
  })
  good_entry pass name file entries out (outs, code) m (inr h) = inr (record {
    failure = h.failure;
    good = (name, file) ∷ h.good;
    name = h.name;
    file = h.file;
    behind = h.behind;
    split = ap (λ x. (name, file) ∷ x) h.split;
    readable = (m, h.readable);
    unreadable = h.unreadable;
    shown = out ∷ h.shown;
    report = ap (λ x. out ∷ x) h.report;
  })

  -- verify-postcat ends with 0 if every file of the directory is read and parsed, and prints their
  -- number behind them; otherwise it ends with 1, and the last thing that it prints names the first
  -- file that is not.
  pub verify-Verdict :
      (pass : ℕ) (entries : List (Bytes × Option Bytes))
      → Verdict pass entries (verify format_time parse_time pass entries)
  unfolding verify
  verify-Verdict pass [] = inl (record {
    success = refl;
    readable = tt;
    shown = [];
    report = ap (λ n. verified n ∷ []) (none_more pass);
  })
  verify-Verdict pass ((name, file) ∷ entries) =
      elim (Option-cases (read_message format_time parse_time file)) [
        | inl q ↦
            rw (q, verify)
              (inr (record {
                failure = refl;
                good = [];
                name = name;
                file = file;
                behind = entries;
                split = refl;
                readable = tt;
                unreadable = q;
                shown = [];
                report = refl;
              }))
        | inr (m, q) ↦
            rw (q, verify)
              (good_entry pass name file entries _ _ (m, q) (verify-Verdict (suc pass) entries))
      ]
