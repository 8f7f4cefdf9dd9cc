-- ===== src/Examples/S3/Stored.antt =====
-- What `Data` of examples/s3/main.go stores, read back with `Parse` of internal/postcat/postcat.go.
use smtp_gateway.Base.{
  ◌≡◌, ◌⊎◌, inl, inr, refl, true, Bool-cases, Option, none, some, List, ◌∷◌, map, Bytes,
}
use smtp_gateway.Base.Int.{ℤ}
use smtp_gateway.Response.{Response, data_ok, sys_error}
use smtp_gateway.Postcat.{sanitize_addr, format_null_sender, format_envelope, parse}
use smtp_gateway.Postcat.Sanitize.{NoBreak}
use smtp_gateway.Postcat.RoundTrip.{parse-format_envelope}
use smtp_gateway.Session.{Tx}
use smtp_gateway.Examples.S3.{Object, Cloud, object_of, upload, compressed, store_data}

module _ {T : Type 0} (format_time : T → Bytes) (parse_time : Bytes → Option T) (date : T → Bytes)
    (unix : T → ℤ) (sha256 : Bytes → Bytes) {W : Type 0} (cloud : Cloud W T) (bucket prefix : Bytes)
    (objects : W → List Object) (gunzip : Bytes → Option Bytes) where
  abbrev pub object : Tx → T → Bytes → Object
  object tx t packed = object_of format_time parse_time date unix sha256 bucket prefix tx t packed

  -- The newest object is that of the message, and gives the message back.
  pub record Holds (tx : Tx) (body : Bytes) (w : W) : Type 0 where
    pub time : T
    pub packed : Bytes
    pub raw : Bytes
    pub older : List Object
    pub newest : objects w ≡ object tx time packed ∷ older
    pub unpacked : gunzip packed ≡ some raw
    pub parsed :
        parse format_time parse_time raw
        ≡ some (record {
          sender = sanitize_addr (format_null_sender tx.mail_from);
          recipients = map sanitize_addr tx.accepted;
          time = some time;
          raw_message = body;
        })

  abbrev pub Kept : Tx → Bytes → Response × W → Type 0
  Kept tx body (r, w) = ((r ≡ data_ok) × Holds tx body w) ⊎ (r ≡ sys_error)

  module _
      (puts : (w : W) (o : Object)
        → (cloud.put_object w o).0 ≡ true
        → objects (cloud.put_object w o).1 ≡ o ∷ objects w)
      (unpacks : (w : W) (s packed : Bytes)
        → (cloud.compress w s).0 ≡ some packed
        → gunzip packed ≡ some s)
      (no_break : (t : T) → NoBreak (format_time t))
      (times : (t : T) → parse_time (format_time t) ≡ some t) where
    upload-Kept :
        (tx : Tx) (t : T) (body packed : Bytes) (w : W)
        → gunzip packed
          ≡ some (format_envelope format_time parse_time tx.mail_from tx.accepted t body)
        → Kept tx body
            (upload format_time parse_time date unix sha256 cloud bucket prefix tx t packed w)
    unfolding upload
    upload-Kept tx t body packed w g =
        elim (Bool-cases (cloud.put_object w (object tx t packed)).0) [
          | inl q ↦ rw q (
              inl (
                refl,
                record {
                  time = t;
                  packed = packed;
                  raw = format_envelope format_time parse_time tx.mail_from tx.accepted t body;
                  older = objects w;
                  newest = puts w (object tx t packed) q;
                  unpacked = g;
                  parsed =
                      parse-format_envelope format_time parse_time tx.mail_from tx.accepted t body
                        (no_break t) (times t);
                },
              ))
          | inr q ↦ rw q (inr refl)
        ]

    compressed-Kept :
        (tx : Tx) (t : T) (body : Bytes) (r : Option Bytes × W)
        → ((packed : Bytes)
            → r.0 ≡ some packed
            → gunzip packed
              ≡ some (format_envelope format_time parse_time tx.mail_from tx.accepted t body))
        → Kept tx body
            (compressed format_time parse_time date unix sha256 cloud bucket prefix tx t r)
    unfolding compressed
    compressed-Kept tx t body (none, w) g = inr refl
    compressed-Kept tx t body (some packed, w) g = upload-Kept tx t body packed w (g packed refl)

    -- With a store that has the object as its newest when the upload succeeds, a compression that
    -- gunzip undoes, and times whose text has no line break and is parsed back: if `Data` answers 250, the store's
    -- newest object is that of the message, and unpacked and parsed it gives back the sender, the
    -- accepted recipients in order, sanitized, the time and the body, whatever bytes they hold;
    -- otherwise `Data` answers 451.
    pub store_data-Kept :
        (w : W) (tx : Tx) (body : Bytes)
        → Kept tx body
            (store_data format_time parse_time date unix sha256 cloud bucket prefix w tx body)
    unfolding store_data
    store_data-Kept w tx body =
        let t : T = (cloud.now w).0 in
        let w' : W = (cloud.now w).1 in
        let raw : Bytes = format_envelope format_time parse_time tx.mail_from tx.accepted t body in
        compressed-Kept tx t body (cloud.compress w' raw) (λ packed. unpacks w' raw packed)
