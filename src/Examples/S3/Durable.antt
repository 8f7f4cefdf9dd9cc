-- ===== src/Examples/S3/Durable.antt =====
-- The gateway of examples/s3/main.go over whole connections: what becomes of the messages that it
-- has acknowledged.
use mathlib.Core.Path.{subst}
use smtp_gateway.Base.{
  ◌≡◌, ◌⊎◌, inl, inr, refl, sym, ap, ◌∙◌, Bool, true, false, Bool-cases, Option, none, some, List,
  [], ◌∷◌, map, All, Bytes, if◌then◌else◌,
}
use smtp_gateway.Base.Int.{ℤ}
use smtp_gateway.Response.{Response, is_ok}
use smtp_gateway.Server.{Server}
use smtp_gateway.Session.{
  Callback, panicked, returned, Effect, sent, write_failed, hello_called, mail_called, rcpt_called,
  data_called, stored, Env, Conn, Tx,
}
use smtp_gateway.Session.Effects.{Closed}
use smtp_gateway.Postcat.{sanitize_addr, format_null_sender, format_envelope, parse}
use smtp_gateway.Postcat.Sanitize.{NoBreak}
use smtp_gateway.Pipeline.{Machine, Reachable}
use smtp_gateway.Pipeline.Effects.{Reachable-Holds}
use smtp_gateway.Examples.{with_handler}
use smtp_gateway.Examples.S3.{Object, Cloud, object_of, upload, compressed, store_data, s3_handler}
use smtp_gateway.Examples.S3.Stored.{Kept, store_data-Kept}

-- What the library and the rest of the program do to the objects of a store that keeps every version
-- of an object: an upload adds one if it succeeds, may have added one if it fails, and nothing else
-- changes them.
pub record Honest {W T : Type 0} (cloud : Cloud W T) (net : Env W) (objects : W → List Object)
    : Type 0 where
  pub puts :
      (w : W) (o : Object)
      → (cloud.put_object w o).0 ≡ true
      → objects (cloud.put_object w o).1 ≡ o ∷ objects w
  pub put_fails :
      (w : W) (o : Object)
      → (cloud.put_object w o).0 ≡ false
      → (objects (cloud.put_object w o).1 ≡ objects w)
        ⊎ (objects (cloud.put_object w o).1 ≡ o ∷ objects w)
  pub now_keeps : (w : W) → objects (cloud.now w).1 ≡ objects w
  pub compress_keeps : (w : W) (s : Bytes) → objects (cloud.compress w s).1 ≡ objects w
  pub write_keeps : (w : W) (text : Bytes) → objects (net.write w text).1 ≡ objects w
  pub handshake_keeps : (w : W) → objects (net.handshake w).1 ≡ objects w
  pub store_keeps :
      (w : W) (dir from : Bytes) (to : List Bytes) (b : Bytes)
      → objects (net.store w dir from to b) ≡ objects w
  pub cancelled_keeps : (w : W) → objects (net.cancelled w).1 ≡ objects w

module _ {T : Type 0} (format_time : T → Bytes) (parse_time : Bytes → Option T) (date : T → Bytes)
    (unix : T → ℤ) (sha256 : Bytes → Bytes) {W : Type 0} (cloud : Cloud W T) (bucket prefix : Bytes)
    (objects : W → List Object) (gunzip : Bytes → Option Bytes) where
  -- The object gives the message back.
  pub record Unpacks (tx : Tx) (body : Bytes) (o : Object) : Type 0 where
    pub time : T
    pub raw : Bytes
    pub placed : o.bucket ≡ bucket
    pub unpacked : gunzip o.content ≡ some raw
    pub parsed :
        parse format_time parse_time raw
        ≡ some (record {
          sender = sanitize_addr (format_null_sender tx.mail_from);
          recipients = map sanitize_addr tx.accepted;
          time = some time;
          raw_message = body;
        })

  -- One of the objects does.
  abbrev pub InStore : Tx → Bytes → List Object → Type 0
  InStore tx body [] = ⊥
  InStore tx body (o ∷ os) = Unpacks tx body o ⊎ InStore tx body os

  -- A message that `Data` answered with 250 is in the store.
  abbrev pub Safe : W → Effect → Type 0
  Safe w (data_called tx body (returned (some r))) = (is_ok r ≡ false) ⊎ InStore tx body (objects w)
  Safe w (data_called tx body (returned none)) = Unit
  Safe w (data_called tx body panicked) = Unit
  Safe w (sent text) = Unit
  Safe w (write_failed text) = Unit
  Safe w (hello_called tx r) = Unit
  Safe w (mail_called tx r) = Unit
  Safe w (rcpt_called tx r) = Unit
  Safe w (stored dir from to b) = Unit

  abbrev pub AllSafe : W → List Effect → Type 0
  AllSafe w es = All (Safe w) es

  -- The store keeps its objects, and may have a new one.
  abbrev Grows : W → W → Type 0
  Grows w w' = (objects w' ≡ objects w) ⊎ ((o : Object) × (objects w' ≡ o ∷ objects w))

  InStore-Grows :
      (tx : Tx) (b : Bytes) (w w' : W)
      → Grows w w'
      → InStore tx b (objects w)
      → InStore tx b (objects w')
  InStore-Grows tx b w w' (inl e) h = subst (λ (os : List Object). InStore tx b os) (sym e) h
  InStore-Grows tx b w w' (inr (o, e)) h =
      subst (λ (os : List Object). InStore tx b os) (sym e) (inr h)

  called-Grows :
      (tx : Tx) (b : Bytes) (c : Callback) (w w' : W)
      → Grows w w'
      → Safe w (data_called tx b c)
      → Safe w' (data_called tx b c)
  called-Grows tx b panicked w w' g h = tt
  called-Grows tx b (returned none) w w' g h = tt
  called-Grows tx b (returned (some r)) w w' g (inl h) = inl h
  called-Grows tx b (returned (some r)) w w' g (inr h) = inr (InStore-Grows tx b w w' g h)

  Safe-Grows : (e : Effect) (w w' : W) → Grows w w' → Safe w e → Safe w' e
  Safe-Grows (sent text) w w' g h = tt
  Safe-Grows (write_failed text) w w' g h = tt
  Safe-Grows (hello_called tx r) w w' g h = tt
  Safe-Grows (mail_called tx r) w w' g h = tt
  Safe-Grows (rcpt_called tx r) w w' g h = tt
  Safe-Grows (stored dir from to b) w w' g h = tt
  Safe-Grows (data_called tx b c) w w' g h = called-Grows tx b c w w' g h

  AllSafe-Grows : (es : List Effect) (w w' : W) → Grows w w' → AllSafe w es → AllSafe w' es
  AllSafe-Grows [] w w' g h = tt
  AllSafe-Grows (e ∷ es) w w' g h = (Safe-Grows e w w' g h.0, AllSafe-Grows es w w' g h.1)

  sent-Safe :
      (b : Bool) (w : W) (text : Bytes) → Safe w (if b then sent text else write_failed text)
  sent-Safe true w text = tt
  sent-Safe false w text = tt

  Grows-from : (w w1 w2 : W) → objects w1 ≡ objects w → Grows w1 w2 → Grows w w2
  Grows-from w w1 w2 e (inl h) = inl (h ∙ e)
  Grows-from w w1 w2 e (inr (o, h)) = inr (o, h ∙ ap (λ os. o ∷ os) e)

  abbrev gateway : Env W → Env W
  gateway net =
      with_handler (s3_handler format_time parse_time date unix sha256 cloud bucket prefix) net

  module _ (net : Env W) (honest : Honest cloud net objects)
      (unpacks : (w : W) (s packed : Bytes)
        → (cloud.compress w s).0 ≡ some packed
        → gunzip packed ≡ some s)
      (no_break : (t : T) → NoBreak (format_time t))
      (times : (t : T) → parse_time (format_time t) ≡ some t) where
    upload-Grows :
        (tx : Tx) (t : T) (packed : Bytes) (w : W)
        → Grows w
            (upload format_time parse_time date unix sha256 cloud bucket prefix tx t packed w).1
    unfolding upload
    upload-Grows tx t packed w =
        let o : Object =
          object_of format_time parse_time date unix sha256 bucket prefix tx t packed in
        elim (Bool-cases (cloud.put_object w o).0) [
          | inl q ↦ inr (o, honest.puts w o q)
          | inr q ↦ elim (honest.put_fails w o q) [ inl e ↦ inl e | inr e ↦ inr (o, e) ]
        ]

    compressed-Grows :
        (tx : Tx) (t : T) (r : Option Bytes × W)
        → Grows r.1
            (compressed format_time parse_time date unix sha256 cloud bucket prefix tx t r).1
    unfolding compressed
    compressed-Grows tx t (none, w) = inl refl
    compressed-Grows tx t (some packed, w) = upload-Grows tx t packed w

    store_data-Grows :
        (w : W) (tx : Tx) (body : Bytes)
        → Grows w
            (store_data format_time parse_time date unix sha256 cloud bucket prefix w tx body).1
    unfolding store_data
    store_data-Grows w tx body =
        let t : T = (cloud.now w).0 in
        let w1 : W = (cloud.now w).1 in
        let raw : Bytes = format_envelope format_time parse_time tx.mail_from tx.accepted t body in
        Grows-from w (cloud.compress w1 raw).1 _ (honest.compress_keeps w1 raw ∙ honest.now_keeps w)
          (compressed-Grows tx t (cloud.compress w1 raw))

    answered-Safe :
        (tx : Tx) (body : Bytes) (r : Response × W)
        → Kept format_time parse_time date unix sha256 cloud bucket prefix objects gunzip tx body r
        → Safe r.1 (data_called tx body (returned (some r.0)))
    unfolding object_of
    answered-Safe tx body (r, w) (inr e) = inl (rw e refl)
    answered-Safe tx body (r, w) (inl (e, h)) = inr (
        subst (λ (os : List Object). InStore tx body os) (sym h.newest)
          (inl (record {
            time = h.time;
            raw = h.raw;
            placed = refl;
            unpacked = h.unpacked;
            parsed = h.parsed;
          })))

    receive-AllSafe :
        (w : W) (es : List Effect) (tx : Tx) (b : Bytes)
        → AllSafe w es
        → AllSafe
            ((gateway net).receive w tx b).1
            (data_called tx b ((gateway net).receive w tx b).0 ∷ es)
    unfolding with_handler s3_handler
    receive-AllSafe w es tx b h =
        let r : Response × W =
          store_data format_time parse_time date unix sha256 cloud bucket prefix w tx b in
        (
          answered-Safe tx b r (
              store_data-Kept format_time parse_time date unix sha256 cloud bucket prefix objects
                gunzip honest.puts unpacks no_break times w tx b),
          AllSafe-Grows es w r.1 (store_data-Grows w tx b) h,
        )

    gateway-Closed : Closed (gateway net) AllSafe
    unfolding with_handler s3_handler
    gateway-Closed = record {
      write = λ w es text h. (
        sent-Safe (net.write w text).0 (net.write w text).1 text,
        AllSafe-Grows es w (net.write w text).1 (inl (honest.write_keeps w text)) h,
      );
      hello = λ w es tx h. (tt, h);
      mail_from = λ w es tx h. (tt, h);
      rcpt_to = λ w es tx h. (tt, h);
      receive = receive-AllSafe;
      handshake =
          λ w es h. AllSafe-Grows es w (net.handshake w).1 (inl (honest.handshake_keeps w)) h;
      store = λ w es dir from to b h. (
        tt,
        AllSafe-Grows es w (net.store w dir from to b) (inl (honest.store_keeps w dir from to b)) h,
      );
      cancelled =
          λ w es h. AllSafe-Grows es w (net.cancelled w).1 (inl (honest.cancelled_keeps w)) h;
    }

    -- A connection of the S3 gateway, with any settings of the server, at any moment, however its
    -- goroutines interleave: every message so far that was acknowledged with 250 is in the store, as
    -- an object of the bucket that unpacked and parsed gives back the sender, the accepted
    -- recipients, sanitized, and the body of the call. The store has an object when its upload
    -- succeeds and keeps every version of it, gunzip undoes the compression, and the text of a time
    -- has no line break and is parsed back.
    pub Reachable-AllSafe :
        (srv : Server) (w : W) (conn : Conn) (m : Machine W)
        → Reachable (gateway net) srv w conn m
        → AllSafe m.session.world m.session.trace
    Reachable-AllSafe srv w conn m r = Reachable-Holds (gateway net) srv AllSafe gateway-Closed tt r
