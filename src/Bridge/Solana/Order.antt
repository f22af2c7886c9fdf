-- ===== src/Bridge/Solana/Order.antt =====
-- src/smart-contracts/use-cases/bridge/guardian/vaa.ts: what `submitVAAToSolana` has done when it
-- returns, and when it throws.
use mathlib.Core.Path.{subst}
use kalvora_js.Common.{
  ◌≡◌, inl, inr, sym, ap, ◌∙◌, Bool, true, false, List, ◌∷◌, Result, ok, err, Text, if◌then◌else◌,
}
use kalvora_js.Bridge.Run.{
  Run, Answers, Thrown, by_call, return, ◌>>=◌, call, bind-ok, bind-err, call-ok, call-err,
}
use kalvora_js.Bridge.Solana.{
  Request, Transaction, Operation, SubmitFailure, Call, build, latest_blockhash, send_raw,
  send_and_confirm, Reply, SubmitOptions, sign, with_blockhash, Submit, send, submit_both,
}

module _ {T E : Type 0} (answer : Answers (Call T) Reply E) (options : SubmitOptions) where
  open options use {skip_confirmation, skip_preflight}

  -- The call that sends a transaction under the options, and the answer to it.
  abbrev pub sending : Transaction T → Call T
  sending tx =
      if skip_confirmation then send_raw tx skip_preflight else send_and_confirm tx skip_preflight

  abbrev pub send_answer : Transaction T → List (Call T) → Result E Text
  send_answer tx calls =
      if skip_confirmation
      then answer (send_raw tx skip_preflight) calls
      else answer (send_and_confirm tx skip_preflight) calls

  abbrev perform : (c : Call T) → Run (Call T) (Thrown E SubmitFailure) (Reply c)
  perform c = call answer c

  -- The steps of `submit_both` from the second one on, the last one, and the one that returns.
  abbrev finish : Operation → Text → Submit answer options (Text × Operation)
  finish op signature = return (signature, op)

  abbrev send_second : Transaction T → Operation → Text → Submit answer options (Text × Operation)
  send_second second op blockhash =
      send answer options (sign (with_blockhash blockhash second)) >>= finish op

  abbrev ask_blockhash : Transaction T → Operation → Text → Submit answer options (Text × Operation)
  ask_blockhash second op verified = perform latest_blockhash >>= send_second second op

  abbrev send_verify :
      Operation → Transaction T × Transaction T → Submit answer options (Text × Operation)
  send_verify op built = send answer options (sign built.0) >>= ask_blockhash built.1 op

  -- What has been done for a request after the calls `before`: the two transactions were built; the
  -- first was signed and sent; then a blockhash was asked for; then the second was sent, signed and
  -- with that blockhash. Each call was answered, and the last answer is the signature.
  abbrev pub Sent : Request → List (Call T) → List (Call T) → Text → Type 0
  Sent request before after signature =
      (verify second : Transaction T) × (verified blockhash : Text) × (answer (build request) before
        ≡ ok (verify, second))
      × (send_answer (sign verify) (build request ∷ before) ≡ ok verified)
      × (answer latest_blockhash (sending (sign verify) ∷ build request ∷ before) ≡ ok blockhash)
      × (send_answer (sign (with_blockhash blockhash second))
            (latest_blockhash ∷ sending (sign verify) ∷ build request ∷ before)
          ≡ ok signature)
      × (after
          ≡ sending (sign (with_blockhash blockhash second))
            ∷ latest_blockhash
            ∷ sending (sign verify)
            ∷ build request
            ∷ before)

  send-ok :
      (tx : Transaction T) (calls after : List (Call T)) (s : Text)
      → send answer options tx calls ≡ (after, ok s)
      → (send_answer tx calls ≡ ok s) × (after ≡ sending tx ∷ calls)
  unfolding send
  send-ok tx calls after s h = go skip_confirmation h
    where
      go :
          (skip : Bool)
          → (if skip
                then perform (send_raw tx skip_preflight)
                else perform (send_and_confirm tx skip_preflight))
              calls
            ≡ (after, ok s)
          → ((if skip
                then answer (send_raw tx skip_preflight) calls
                else answer (send_and_confirm tx skip_preflight) calls)
              ≡ ok s)
            × (after
                ≡ (if skip then send_raw tx skip_preflight else send_and_confirm tx skip_preflight)
                  ∷ calls)
      go true h = call-ok answer (send_raw tx skip_preflight) calls after s h
      go false h = call-ok answer (send_and_confirm tx skip_preflight) calls after s h

  -- Where a run throws what a call has thrown, that call is the last one made.
  abbrev pub LastFailed : List (Call T) → Thrown E SubmitFailure → Type 0
  LastFailed after t =
      (c : Call T) × (rest : List (Call T)) × (e : E) × (after ≡ c ∷ rest)
      × (answer c rest ≡ err e)
      × (t ≡ by_call e)

  pub call-LastFailed :
      (c : Call T) (calls after : List (Call T)) (t : Thrown E SubmitFailure)
      → Path
          (List (Call T) × Result (Thrown E SubmitFailure) (Reply c))
          (call answer c calls)
          (after, err t)
      → LastFailed after t
  call-LastFailed c calls after t h =
      let (e, thrown, failed, made) = call-err answer c calls after t h in
      (c, calls, e, made, failed, thrown)

  send-LastFailed :
      (tx : Transaction T) (calls after : List (Call T)) (t : Thrown E SubmitFailure)
      → send answer options tx calls ≡ (after, err t)
      → LastFailed after t
  unfolding send
  send-LastFailed tx calls after t h = go skip_confirmation h
    where
      go :
          (skip : Bool)
          → (if skip
                then perform (send_raw tx skip_preflight)
                else perform (send_and_confirm tx skip_preflight))
              calls
            ≡ (after, err t)
          → LastFailed after t
      go true h = call-LastFailed (send_raw tx skip_preflight) calls after t h
      go false h = call-LastFailed (send_and_confirm tx skip_preflight) calls after t h

  pub submit_both-Sent :
      (request : Request) (op : Operation) (before after : List (Call T)) (signature : Text)
      (done : Operation)
      → submit_both answer options request op before ≡ (after, ok (signature, done))
      → Sent request before after signature × (done ≡ op)
  unfolding submit_both
  submit_both-Sent request op before after signature done h =
      let ((verify, second), mid0, e0, h0) =
        bind-ok (perform (build request)) (send_verify op) before after _ h in
      let (built, m0) = call-ok answer (build request) before mid0 (verify, second) e0 in
      let (verified, mid1, e1, h1) =
        bind-ok (send answer options (sign verify)) (ask_blockhash second op) mid0 after _ h0 in
      let (sent1, m1) = send-ok (sign verify) mid0 mid1 verified e1 in
      let (blockhash, mid2, e2, h2) =
        bind-ok (perform latest_blockhash) (send_second second op) mid1 after _ h1 in
      let (fresh, m2) = call-ok answer latest_blockhash mid1 mid2 blockhash e2 in
      let (sig, mid3, e3, h3) =
        bind-ok (send answer options (sign (with_blockhash blockhash second))) (finish op) mid2
          after _ h2 in
      let (sent2, m3) = send-ok (sign (with_blockhash blockhash second)) mid2 mid3 sig e3 in
      let made1 : mid1 ≡ sending (sign verify) ∷ build request ∷ before =
        m1 ∙ ap (λ m. sending (sign verify) ∷ m) m0 in
      let made2 = m2 ∙ ap (λ m. latest_blockhash ∷ m) made1 in
      let tx2 = sign (with_blockhash blockhash second) in
      let same : sig ≡ signature = cc h3 in
      (
        (
          verify,
          second,
          verified,
          blockhash,
          built,
          subst (λ m. send_answer (sign verify) m ≡ ok verified) m0 sent1,
          subst (λ m. answer latest_blockhash m ≡ ok blockhash) made1 fresh,
          subst (λ m. send_answer tx2 m ≡ ok signature) made2 (sent2 ∙ ap ok same),
          ap (λ r. r.0) (sym h3) ∙ m3 ∙ ap (λ m. sending tx2 ∷ m) made2,
        ),
        cc h3,
      )

  pub submit_both-LastFailed :
      (request : Request) (op : Operation) (before after : List (Call T))
      (t : Thrown E SubmitFailure)
      → submit_both answer options request op before ≡ (after, err t)
      → LastFailed after t
  unfolding submit_both
  submit_both-LastFailed request op before after t h =
      elim (bind-err (perform (build request)) (send_verify op) before after t h) [
        | inl failed ↦ call-LastFailed (build request) before after t failed
        | inr (built, mid0, e0, h0) ↦
            elim (bind-err (send answer options (sign built.0)) (ask_blockhash built.1 op) mid0
              after t h0) [
                | inl failed ↦ send-LastFailed (sign built.0) mid0 after t failed
                | inr (verified, mid1, e1, h1) ↦
                    elim (bind-err (perform latest_blockhash) (send_second built.1 op) mid1 after t
                      h1) [
                        | inl failed ↦ call-LastFailed latest_blockhash mid1 after t failed
                        | inr (blockhash, mid2, e2, h2) ↦
                            elim (bind-err
                              (send answer options (sign (with_blockhash blockhash built.1)))
                              (finish op) mid2 after t h2) [
                                | inl failed ↦
                                    send-LastFailed (sign (with_blockhash blockhash built.1)) mid2
                                      after t failed
                                | inr (signature, mid3, e3, h3) ↦ cc h3
                              ]
                      ]
              ]
      ]
