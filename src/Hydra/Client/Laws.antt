-- ===== src/Hydra/Client/Laws.antt =====
-- What `do` and the token operations guarantee.
use hydra_operator.Base.{
  ◌∷◌, none, ◌⊎◌, ◌≢◌, ◌≤◌, ◌<◌, String, ◌<>◌, Bool, ◌≡◌, Option, some, Result, ok, err, arith,
  Result-cases, Bool-cases, eqb, inl, inr,
}
use hydra_operator.Kube.Calls.{Body, registration, HttpRequest, HttpResponse, http_call}
use hydra_operator.Kube.Env.{Env, Session, ◌>>=◌, or_return, unless, perform, CanSend}
use hydra_operator.Hydra.Client.Defs.{
  Client, cluster_path, build_request, read_response, send, set_token, register,
}

-- What a successful call returns of a response: the zero value where nothing is to be decoded or the
-- response has no content, and otherwise what its text decodes to.
abbrev pub Decoded :
    {A : Type 0} → A → Option (String → Result String A) → HttpResponse → A → Type 0
Decoded zero_value none resp a = a ≡ zero_value
Decoded zero_value (some decode) resp a =
    ((resp.status_code ≡ 204) × (a ≡ zero_value))
    ⊎ ((resp.status_code ≢ 204) × (decode resp.text ≡ ok a))

read_response-Decoded :
    {A : Type 0} (method path : String) (zero_value : A)
    (decode : Option (String → Result String A)) (resp : HttpResponse) (a : A)
    → read_response method path zero_value decode resp ≡ ok a
    → Decoded zero_value decode resp a
unfolding read_response
read_response-Decoded method path z none resp a h = ground arith
read_response-Decoded method path z (some d) resp a h =
    elim (Bool-cases (eqb resp.status_code 204)) [
      | inl empty ↦ inl (ground arith, ground arith)
      | inr content ↦ inr (ground arith, ground arith)
    ]

-- A response counts as a success only with a status from 200 to 299.
read_response_ok :
    {A : Type 0} (method path : String) (zero_value : A)
    (decode : Option (String → Result String A)) (resp : HttpResponse) (a : A)
    → read_response method path zero_value decode resp ≡ ok a
    → (200 ≤ resp.status_code) × (resp.status_code < 300)
unfolding read_response
read_response_ok method path z decode resp a h = ground arith

module _ (env : Env) (c : Client) where
  send_answer :
      {A : Type 0} (method path : String) (body : Option Body) (authed : Bool) (zero_value : A)
      (decode : Option (String → Result String A)) (s : Session env.World) (a : A)
      (resp : HttpResponse)
      → (send env c method path body authed zero_value decode s).0 ≡ ok a
      → (env.round_trip (build_request c method path body authed) s.world).0 ≡ ok resp
      → read_response method path zero_value decode resp ≡ ok a
  unfolding send or_return unless perform
  send_answer method path body authed z decode s a resp h e = ground arith

  send_unanswered :
      {A : Type 0} (method path : String) (body : Option Body) (authed : Bool) (zero_value : A)
      (decode : Option (String → Result String A)) (s : Session env.World) (a : A) (e : String)
      → (send env c method path body authed zero_value decode s).0 ≡ ok a
      → (env.round_trip (build_request c method path body authed) s.world).0 ≢ err e
  unfolding send or_return unless perform
  send_unanswered method path body authed z decode s a e h f = ground arith

  -- A request succeeds only if it was answered with a status from 200 to 299, and then with the zero
  -- value if there is nothing to decode or the status is 204, and with what the decoder makes of the
  -- response's text if not.
  pub send_ok :
      {A : Type 0} (method path : String) (body : Option Body) (authed : Bool) (zero_value : A)
      (decode : Option (String → Result String A)) (s : Session env.World) (a : A)
      → (send env c method path body authed zero_value decode s).0 ≡ ok a
      → (resp : HttpResponse) × ((env.round_trip
            (build_request c method path body authed)
            s.world).0
          ≡ ok resp)
        × (200 ≤ resp.status_code)
        × (resp.status_code < 300)
        × Decoded zero_value decode resp a
  send_ok method path body authed z decode s a h =
      elim (Result-cases (env.round_trip (build_request c method path body authed) s.world).0) [
        | inl (resp, e) ↦
            let answer = send_answer method path body authed z decode s a resp h e in
            let bounds = read_response_ok method path z decode resp a answer in
            (resp, e, bounds.0, bounds.1, read_response-Decoded method path z decode resp a answer)
        | inr (e, f) ↦ absurd (send_unanswered method path body authed z decode s a e h f)
      ]

-- The client after a token request: a success replaces the token, a failure leaves it.
abbrev pub TokenKept : Client → Result String String × Client → Type 0
TokenKept c (ok token, c') = c' ≡ set_token c token
TokenKept c (err _, c') = c' ≡ c

-- What one request adds to the log.
abbrev pub Adds : {W A : Type 0} → HttpRequest → Session W → A × Session W → Type 0
Adds req s (_, t) = t.log ≡ http_call req ∷ s.log

module _ (env : Env) (can : CanSend env) (c : Client) where
  -- When requests can be built, registration is one request that carries the registration token in its body and no cluster
  -- token; the client holds the new token exactly if it succeeds.
  pub register_lem :
      (registration_token : String) (s : Session env.World)
      → Adds
          (record {
            method = "POST";
            url = c.base_url <> "/operator/clusters/" <> c.cluster_id <> "/register";
            content_type = some "application/json";
            authorization = none;
            body = some (registration registration_token);
          })
          s
          (register env c registration_token s)
        × TokenKept c (register env c registration_token s).0
  unfolding register ◌>>=◌ send or_return unless perform build_request
  register_lem t s = grind (
    arith,
    can.builds "POST" (c.base_url <> cluster_path c "/register"),
    can.marshals (registration t),
  )
