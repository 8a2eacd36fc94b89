-- ===== src/Examples/Buffers.antt =====
-- Buffers that hold an envelope as a list of numbers, in place of FlatBuffers.
use Prim.Native.Nat.{ℕ, suc}
use yo_authorize.Prelude.{
  Bytes, Option, List, ◌≡◌, some, ◌∷◌, none, length, [], refl, zero, leb, arith, ap, is_some, drop,
  zeros, ◌++◌, if◌then◌else◌, ◌==◌,
}
use yo_authorize.Protocol.Envelope.{
  ClientHelloTable, ServerHelloTable, AuthorizeTable, AuthResultTable, HeartbeatAckTable,
  ErrorTable, Body, Envelope, EnvelopeBuffers, IsEnvelopeBuffers, client_hello, other, server_hello,
  client_finished, authorize, auth_result, heartbeat, heartbeat_ack, close_session, error,
}

pub record Codec (A : Type 0) : Type 0 where
  -- the value, before what follows it
  pub put : A → Bytes → Bytes
  pub take : Bytes → Option (A × Bytes)
  pub law : (a : A) (rest : Bytes) → take (put a rest) ≡ some (a, rest)

abbrev number : Codec ℕ
number = record {
  put = λ n rest. n ∷ rest;
  take = λ bytes. elim bytes [ [] ↦ none | (n ∷ rest) ↦ some (n, rest) ];
  law = λ n rest. refl;
}

module _ {A : Type 0} (c : Codec A) where
  abbrev take_option : Bytes → Option (Option A × Bytes)
  take_option [] = none
  take_option (zero ∷ rest) = some (none, rest)
  take_option (suc n ∷ rest) = elim (c.take rest) [ none ↦ none | some (a, r) ↦ some (some a, r) ]

  abbrev put_option : Option A → Bytes → Bytes
  put_option none rest = 0 ∷ rest
  put_option (some a) rest = 1 ∷ c.put a rest

  pub option-law : (o : Option A) (rest : Bytes) → take_option (put_option o rest) ≡ some (o, rest)
  option-law none rest = refl
  option-law (some a) rest = rw (c.law a rest) refl

  abbrev option : Codec (Option A)
  option = record { put = put_option; take = take_option; law = option-law }

  abbrev take_many : ℕ → Bytes → Option (List A × Bytes)
  take_many zero rest = some ([], rest)
  take_many (suc n) rest = elim (c.take rest) [
    | none ↦ none
    | some (a, r) ↦ elim (take_many n r) [ none ↦ none | some (as', r') ↦ some (a ∷ as', r') ]
  ]

  abbrev put_many : List A → Bytes → Bytes
  put_many [] rest = rest
  put_many (a ∷ as') rest = c.put a (put_many as' rest)

  pub many-law :
      (as' : List A) (rest : Bytes) → take_many (length as') (put_many as' rest) ≡ some (as', rest)
  many-law [] rest = refl
  many-law (a ∷ as') rest = rw (c.law a (put_many as' rest), many-law as' rest) refl

  abbrev list : Codec (List A)
  list = record {
    put = λ as' rest. length as' ∷ put_many as' rest;
    take = λ bytes. elim bytes [ [] ↦ none | (n ∷ rest) ↦ take_many n rest ];
    law = many-law;
  }

abbrev pair : {A B : Type 0} → Codec A → Codec B → Codec (A × B)
pair c d = record {
  put = λ p rest. c.put (p.0) (d.put (p.1) rest);
  take = λ bytes. elim (c.take bytes) [
    | none ↦ none
    | some (a, r) ↦ elim (d.take r) [ none ↦ none | some (b, s) ↦ some ((a, b), s) ]
  ];
  law = λ p rest. rw (c.law (p.0) (d.put (p.1) rest), d.law (p.1) rest) refl;
}

-- Two types with the same values have the same codec.
abbrev via : {A B : Type 0} (f : A → B) (g : B → A) → ((b : B) → f (g b) ≡ b) → Codec A → Codec B
via f g e c = record {
  put = λ b rest. c.put (g b) rest;
  take = λ bytes. elim (c.take bytes) [ none ↦ none | some (a, r) ↦ some (f a, r) ];
  law = λ b rest. rw (c.law (g b) rest, e b) refl;
}

abbrev bytes : Codec Bytes
bytes = list number

abbrev client_hello_table : Codec ClientHelloTable
client_hello_table =
    via
      (λ p. record {
        min_protocol_version = p.0;
        max_protocol_version = p.1.0;
        client_nonce = p.1.1.0;
        ephemeral_public_key = p.1.1.1.0;
        sdk_version = p.1.1.1.1;
      })
      (λ t. (
        t.min_protocol_version,
        (t.max_protocol_version, (t.client_nonce, (t.ephemeral_public_key, t.sdk_version))),
      ))
      (λ t. refl)
      (pair number (pair number (pair (option bytes) (pair (option bytes) (option bytes)))))

abbrev server_hello_table : Codec ServerHelloTable
server_hello_table =
    via
      (λ p. record {
        selected_protocol_version = p.0;
        server_nonce = p.1.0;
        ephemeral_public_key = p.1.1.0;
        service_key_id = p.1.1.1.0;
        signature = p.1.1.1.1;
      })
      (λ t. (
        t.selected_protocol_version,
        (t.server_nonce, (t.ephemeral_public_key, (t.service_key_id, t.signature))),
      ))
      (λ t. refl)
      (pair number (pair (option bytes) (pair (option bytes) (pair (option bytes) (option bytes)))))

abbrev authorize_table : Codec AuthorizeTable
authorize_table =
    via (λ p. record { product_id = p.0; process_id = p.1.0; process_start_time = p.1.1 })
      (λ t. (t.product_id, (t.process_id, t.process_start_time))) (λ t. refl)
      (pair (option bytes) (pair number number))

abbrev auth_result_table : Codec AuthResultTable
auth_result_table =
    via
      (λ p. record {
        error = p.0;
        session_id = p.1.0;
        features = p.1.1.0;
        expire_time = p.1.1.1.0;
        heartbeat_interval_ms = p.1.1.1.1.0;
        heartbeat_timeout_ms = p.1.1.1.1.1;
      })
      (λ t. (
        t.error,
        (
          t.session_id,
          (t.features, (t.expire_time, (t.heartbeat_interval_ms, t.heartbeat_timeout_ms))),
        ),
      ))
      (λ t. refl)
      (pair number (
        pair (option bytes)
          (pair (option (list (option bytes))) (pair number (pair number number)))))

abbrev heartbeat_ack_table : Codec HeartbeatAckTable
heartbeat_ack_table =
    via (λ p. record { state = p.0; features = p.1.0; expire_time = p.1.1 })
      (λ t. (t.state, (t.features, t.expire_time))) (λ t. refl)
      (pair number (pair (option (list (option bytes))) number))

abbrev error_table : Codec ErrorTable
error_table =
    via (λ p. record { code = p.0; message = p.1 }) (λ t. (t.code, t.message)) (λ t. refl)
      (pair number (option bytes))

abbrev close_table : Codec (Unit {0})
close_table = via (λ n. tt) (λ u. 0) (λ u. refl) number

abbrev put_body : Body → Bytes → Bytes
put_body (client_hello t) rest = 0 ∷ (option client_hello_table).put t rest
put_body (server_hello t) rest = 1 ∷ (option server_hello_table).put t rest
put_body (client_finished t) rest = 2 ∷ (option (option bytes)).put t rest
put_body (authorize t) rest = 3 ∷ (option authorize_table).put t rest
put_body (auth_result t) rest = 4 ∷ (option auth_result_table).put t rest
put_body (heartbeat t) rest = 5 ∷ (option (option bytes)).put t rest
put_body (heartbeat_ack t) rest = 6 ∷ (option heartbeat_ack_table).put t rest
put_body (close_session t) rest = 7 ∷ (option close_table).put t rest
put_body (error t) rest = 8 ∷ (option error_table).put t rest
put_body (other n) rest = 9 ∷ n ∷ rest

abbrev taken : {A B : Type 0} → (A → B) → Option (A × Bytes) → Option (B × Bytes)
taken f none = none
taken f (some (a, rest)) = some (f a, rest)

abbrev take_tagged : ℕ → Bytes → Option (Body × Bytes)
take_tagged tag rest =
    if tag == 0
    then taken client_hello ((option client_hello_table).take rest)
    else if tag == 1
    then taken server_hello ((option server_hello_table).take rest)
    else if tag == 2
    then taken client_finished ((option (option bytes)).take rest)
    else if tag == 3
    then taken authorize ((option authorize_table).take rest)
    else if tag == 4
    then taken auth_result ((option auth_result_table).take rest)
    else if tag == 5
    then taken heartbeat ((option (option bytes)).take rest)
    else if tag == 6
    then taken heartbeat_ack ((option heartbeat_ack_table).take rest)
    else if tag == 7
    then taken close_session ((option close_table).take rest)
    else if tag == 8
    then taken error ((option error_table).take rest)
    else taken other (number.take rest)

abbrev take_body : Bytes → Option (Body × Bytes)
take_body [] = none
take_body (tag ∷ rest) = take_tagged tag rest

pub body-law : (b : Body) (rest : Bytes) → take_body (put_body b rest) ≡ some (b, rest)
body-law (client_hello t) rest = ap (taken client_hello) ((option client_hello_table).law t rest)
body-law (server_hello t) rest = ap (taken server_hello) ((option server_hello_table).law t rest)
body-law (client_finished t) rest = ap (taken client_finished) ((option (option bytes)).law t rest)
body-law (authorize t) rest = ap (taken authorize) ((option authorize_table).law t rest)
body-law (auth_result t) rest = ap (taken auth_result) ((option auth_result_table).law t rest)
body-law (heartbeat t) rest = ap (taken heartbeat) ((option (option bytes)).law t rest)
body-law (heartbeat_ack t) rest = ap (taken heartbeat_ack) ((option heartbeat_ack_table).law t rest)
body-law (close_session none) rest = refl
body-law (close_session (some u)) rest = refl
body-law (error t) rest = ap (taken error) ((option error_table).law t rest)
body-law (other n) rest = refl

abbrev body_codec : Codec Body
body_codec = record { put = put_body; take = take_body; law = body-law }

abbrev envelope : Codec Envelope
envelope =
    via (λ p. record { protocol_version = p.0; request_id = p.1.0; body = p.1.1 })
      (λ e. (e.protocol_version, (e.request_id, e.body))) (λ e. refl)
      (pair number (pair number body_codec))

abbrev blank : Envelope
blank = record { protocol_version = 0; request_id = 0; body = other 0 }

abbrev root : Option (Envelope × Bytes) → Envelope
root none = blank
root (some (e, rest)) = e

abbrev pub buffers : EnvelopeBuffers
buffers = record {
  has_identifier = λ b. leb 8 (length b);
  verify = λ max_depth max_tables b. is_some (envelope.take (drop 8 b));
  get = λ b. root (envelope.take (drop 8 b));
  build = λ e. zeros 8 ++ envelope.put e [];
}

pub buffers-IsEnvelopeBuffers : IsEnvelopeBuffers buffers
buffers-IsEnvelopeBuffers = record {
  size = λ e. omega arith;
  identifier = λ e. ground arith;
  verifies = λ e small. ap is_some (envelope.law e []);
  reads = λ e small. ap root (envelope.law e []);
}
