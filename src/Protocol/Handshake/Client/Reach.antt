-- ===== src/Protocol/Handshake/Client/Reach.antt =====
-- Runs of a client handshake's calls (protocol/handshake.cpp).
use yo_authorize.Protocol.Handshake.Client.{
  ClientHandshake, start, OpenSsl, EnvelopeBuffers, HandshakeError, handle_server_hello,
  seal_client, open_client,
}
use yo_authorize.OpenSsl.{OpenSsl}
use yo_authorize.Protocol.Envelope.{EnvelopeBuffers}
use yo_authorize.Protocol.Handshake.Client.Order.{
  step, ClientCall, IsClient, start_with, Keyless-IsClient, start-Keyless, server_hello_with,
  second, Settled, handle_server_hello-Settled, seal_with, seal_client-IsClient, open_with, run,
  open_client-IsClient,
}
use yo_authorize.Prelude.{
  ◌≡◌, some, subst, Option, Result, Bytes, ok, err, List, ◌∷◌, ◌++◌, ◌≢◌, none, refl, ap, ◌∙◌, sym,
  arith, [], ◌⊎◌, inr, inl, some_injective,
}
use yo_authorize.Protocol.Handshake.{
  HandshakeError, established, is_established, HandshakeState, initial, hello_sent,
  awaiting_finished, failed,
}
use yo_authorize.Protocol.Handshake.Client.Accepting.{Accepted, handle_server_hello-Accepted}

module _ (o : OpenSsl) (fb : EnvelopeBuffers) where
  step-IsClient :
      (c : ClientCall) (h : ClientHandshake) {h' : ClientHandshake}
      → IsClient h
      → step o fb c h ≡ some h'
      → IsClient h'
  unfolding step Settled
  step-IsClient (start_with n k) h i e =
      subst IsClient (some_injective e) (Keyless-IsClient o fb _ (start-Keyless o fb n k h i))
  step-IsClient (server_hello_with m) h {h' = h'} i e =
      hello_case (handle_server_hello o fb h m) refl e
    where
      hello_case :
          (x : Option (Result HandshakeError Bytes × ClientHandshake))
          → handle_server_hello o fb h m ≡ x
          → second x ≡ some h'
          → IsClient h'
      hello_case none d q = cc
      hello_case (some (r, g)) d q =
          subst IsClient (some_injective q)
            (of_settled r g (handle_server_hello-Settled o fb m h d))
        where
          of_settled :
              (r : Result HandshakeError Bytes) (g : ClientHandshake)
              → Settled o fb r g
              → IsClient g
          of_settled (ok frame) g k = k.0
          of_settled (err x) g k = Keyless-IsClient o fb g k.0
  step-IsClient (seal_with p) h i e =
      subst IsClient (some_injective e) (seal_client-IsClient o fb p h i)
  step-IsClient (open_with f) h i e =
      subst IsClient (some_injective e) (open_client-IsClient o fb f h i)

  -- A run that starts with a call goes on from what the call leaves.
  run-first :
      (c : ClientCall) (cs : List ClientCall) (h : ClientHandshake) {h' : ClientHandshake}
      → run o fb (c ∷ cs) h ≡ some h'
      → (g : ClientHandshake) × (step o fb c h ≡ some g) × (run o fb cs g ≡ some h')
  unfolding run
  run-first c cs h {h' = h'} e = next (step o fb c h) refl e
    where
      next :
          (x : Option ClientHandshake)
          → step o fb c h ≡ x
          → elim x [ none ↦ none | some g ↦ run o fb cs g ] ≡ some h'
          → (g : ClientHandshake) × (step o fb c h ≡ some g) × (run o fb cs g ≡ some h')
      next none s q = cc
      next (some g) s q = (g, s, q)

  run-next :
      (c : ClientCall) (cs : List ClientCall) (h : ClientHandshake) {g : ClientHandshake}
      {r : Option ClientHandshake}
      → step o fb c h ≡ some g
      → run o fb cs g ≡ r
      → run o fb (c ∷ cs) h ≡ r
  unfolding run
  run-next c cs h s q = ap (λ x. elim x [ none ↦ none | some g ↦ run o fb cs g ]) s ∙ q

  -- A client that has its record keys exactly while it is established still does after any run of
  -- its calls.
  pub run-IsClient :
      (calls : List ClientCall) (h : ClientHandshake) {h' : ClientHandshake}
      → IsClient h
      → run o fb calls h ≡ some h'
      → IsClient h'
  unfolding run
  run-IsClient [] h i e = subst IsClient (some_injective e) i
  run-IsClient (c ∷ cs) h i e =
      let (g, s, q) = run-first c cs h e in run-IsClient cs g (step-IsClient c h i s) q

  -- Only a server hello that is accepted establishes.
  pub record Acceptance (calls : List ClientCall) (h : ClientHandshake) : Type 0 where
    pub before : List ClientCall
    pub message : Bytes
    pub after : List ClientCall
    pub waiting : ClientHandshake
    pub frame : Bytes
    pub accepting : ClientHandshake
    pub split : calls ≡ before ++ (server_hello_with message ∷ after)
    pub ran : run o fb before h ≡ some waiting
    pub accepted : Accepted o fb waiting message frame accepting

  step-Accepted :
      (c : ClientCall) (h : ClientHandshake) {h' : ClientHandshake}
      → IsClient h
      → h.state ≢ established
      → step o fb c h ≡ some h'
      → h'.state ≡ established
      → (m : Bytes) × (frame : Bytes) × (c ≡ server_hello_with m) × Accepted o fb h m frame h'
  unfolding step seal_client open_client Settled
  step-Accepted (start_with n k) h {h' = h'} i f e t =
      let early = (start-Keyless o fb n k h i).early in
      cc (ap is_established (ap (λ x. x.state) (some_injective e) ∙ t), early)
  step-Accepted (server_hello_with m) h {h' = h'} i f e t =
      hello_case (handle_server_hello o fb h m) refl e
    where
      hello_case :
          (x : Option (Result HandshakeError Bytes × ClientHandshake))
          → handle_server_hello o fb h m ≡ x
          → second x ≡ some h'
          → (m' : Bytes) × (frame : Bytes) × (server_hello_with m ≡ server_hello_with m')
            × Accepted o fb h m' frame h'
      hello_case none d q = cc
      hello_case (some (err x, g)) d q =
          let (k, s) = handle_server_hello-Settled o fb m h d in
          cc (sym s ∙ ap (λ x. x.state) (some_injective q) ∙ t)
      hello_case (some (ok frame, g)) d q = (
        m,
        frame,
        refl,
        handle_server_hello-Accepted o fb h m frame h'
            (d ∙ ap (λ x. some (ok frame, x)) (some_injective q)),
      )
  step-Accepted (seal_with p) h i f e t = ground (arith, e, f, t)
  step-Accepted (open_with p) h i f e t = ground (arith, e, f, t)

  is_established_cases : (s : HandshakeState) → (s ≡ established) ⊎ (s ≢ established)
  is_established_cases initial = inr (λ e. cc)
  is_established_cases hello_sent = inr (λ e. cc)
  is_established_cases awaiting_finished = inr (λ e. cc)
  is_established_cases established = inl refl
  is_established_cases failed = inr (λ e. cc)

  -- A run of a client's calls that starts without keys and not established, and ends established,
  -- has a call that accepted a server hello: the hello answers this request with a version in
  -- range, and its signature over the transcript of both hellos verifies under the key that the
  -- client trusts under the hello's key id.
  pub run-Acceptance :
      (calls : List ClientCall) (h : ClientHandshake) {h' : ClientHandshake}
      → IsClient h
      → h.state ≢ established
      → run o fb calls h ≡ some h'
      → h'.state ≡ established
      → Acceptance calls h
  unfolding run
  run-Acceptance [] h i f e t = elim (f (ap (λ x. x.state) (some_injective e) ∙ t)) [ ]
  run-Acceptance (c ∷ cs) h i f e t =
      let (g, s, q) = run-first c cs h e in
      elim (is_established_cases g.state) [
        | inl now ↦
            let (m, frame, is_hello, accepted) = step-Accepted c h i f s now in
            record {
              before = [];
              message = m;
              after = cs;
              waiting = h;
              frame = frame;
              accepting = g;
              split = ap (λ x. x ∷ cs) is_hello;
              ran = refl;
              accepted = accepted;
            }
        | inr later ↦
            let a = run-Acceptance cs g (step-IsClient c h i s) later q t in
            record {
              before = c ∷ a.before;
              message = a.message;
              after = a.after;
              waiting = a.waiting;
              frame = a.frame;
              accepting = a.accepting;
              split = ap (λ x. c ∷ x) a.split;
              ran = run-next c a.before h s a.ran;
              accepted = a.accepted;
            }
      ]

  step-failed :
      (c : ClientCall) (h : ClientHandshake) {h' : ClientHandshake}
      → h.state ≡ failed
      → step o fb c h ≡ some h'
      → h'.state ≡ failed
  unfolding step start handle_server_hello seal_client open_client
  step-failed (start_with n k) h f e = ground (arith, f, e)
  step-failed (server_hello_with m) h f e = ground (arith, f, e)
  step-failed (seal_with p) h f e = ground (arith, f, e)
  step-failed (open_with p) h f e = ground (arith, f, e)

  -- A client that has failed has failed after any run of its calls.
  pub run-failed :
      (calls : List ClientCall) (h : ClientHandshake) {h' : ClientHandshake}
      → h.state ≡ failed
      → run o fb calls h ≡ some h'
      → h'.state ≡ failed
  unfolding run
  run-failed [] h f e = ap (λ x. x.state) (sym (some_injective e)) ∙ f
  run-failed (c ∷ cs) h f e =
      let (g, s, q) = run-first c cs h e in run-failed cs g (step-failed c h f s) q
