-- ===== src/Client/Login/Handshake.antt =====
-- The handshake of `authenticate` in src/client.rs: every challenge is answered, in order, until the
-- server decides.
use async_imap.Base.{ap, ◌≡◌, refl, ◌∙◌, Option, none, some, List, [], ◌∷◌, ◌++◌, map}
use async_imap.Base.Text.{Bytes, codes}
use async_imap.Channel.{Channel}
use async_imap.Client.Connection.{Connection, check_done_ok, check_done_ok_from}
use async_imap.Client.Connection.Check.{
  AllQuiet, Decision, succeeded, refused, lost, broken, decision_items, decision_rest,
  decision_outcome, IsDecision, check_done_ok_alone,
}
use async_imap.Client.Connection.Commands.{
  next_tag, issued, issued_untagged, awaiting, run_command_lem, run_command_untagged_lem,
}
use async_imap.Client.Login.{
  Base64, plain, Authenticator, do_auth_handshake, authenticate, handshake_step, answer_to,
  challenge_of, after_answer, finish_from, after_command,
}
use async_imap.Client.Login.Laws.{attempted, finish-attempted}
use async_imap.Error.{IoResult, ok}
use async_imap.Parse.{Item}
use async_imap.Proto.{RequestId, ResponseCode, Response}
use async_imap.Types.Wire.{ResponseData}

-- A continuation request of the server, and the bytes that it stands for.
pub record Challenge : Type 0 where
  pub owner : Bytes
  pub code : Option ResponseCode
  pub information : Option Bytes
  pub bytes : Bytes

abbrev pub challenge_item : Challenge → Item
challenge_item ch =
    IoResult.ok (record { owner = ch.owner; parsed = Response.continue ch.code ch.information })

-- The first response behind the challenges is none.
abbrev pub IsNoChallenge : Response → Type 0
IsNoChallenge (Response.continue _ _) = ⊥
IsNoChallenge _ = Unit

abbrev pub EndsChallenges : List ResponseData → Type 0
EndsChallenges [] = Unit
EndsChallenges (r ∷ rs) = IsNoChallenge r.parsed

module _ {C A : Type 0} (ch : Channel C) (base64 : Base64) (process : Authenticator A) where
  -- No text stands for no bytes, any other for what base64 decodes it to.
  abbrev pub StandsFor : Option Bytes → Bytes → Type 0
  StandsFor none bytes = bytes ≡ []
  StandsFor (some text) bytes = base64.decode text ≡ plain bytes

  abbrev pub AllStand : List Challenge → Type 0
  AllStand [] = Unit
  AllStand (x ∷ xs) = StandsFor x.information x.bytes × AllStand xs

  -- The connection after each challenge has been answered by what the authenticator makes of it.
  abbrev pub answered : List Challenge → A → Connection → Connection
  answered [] auth conn = conn
  answered (x ∷ xs) auth conn =
      answered xs (process x.bytes auth).1
        (issued_untagged (base64.encode (process x.bytes auth).0) conn)

  answer_to_lem :
      (information : Option Bytes) (bytes : Bytes) (auth : A) (conn : Connection)
      → StandsFor information bytes
      → conn.stream.faults ≡ []
      → answer_to ch base64 process information auth conn ≡ (
        ok tt,
        issued_untagged (base64.encode (process bytes auth).0) conn,
        (process bytes auth).1,
      )
  unfolding answer_to challenge_of
  answer_to_lem none bytes auth conn h f =
      rw (h, run_command_untagged_lem (base64.encode (process [] auth).0) conn f) refl
  answer_to_lem (some text) bytes auth conn h f =
      rw
        (
          h,
          answer_to,
          challenge_of,
          run_command_untagged_lem (base64.encode (process bytes auth).0) conn f,
        )
        refl

  one_round :
      (id : RequestId) (x : Challenge) (rest : List Item) (auth : A) (conn : Connection)
      → StandsFor x.information x.bytes
      → conn.stream.faults ≡ []
      → do_auth_handshake ch base64 process id (challenge_item x ∷ rest) auth conn
        ≡ do_auth_handshake ch base64 process id rest
            (process x.bytes auth).1
            (awaiting rest (issued_untagged (base64.encode (process x.bytes auth).0) conn))
  unfolding do_auth_handshake handshake_step after_answer
  one_round id x rest auth conn h f =
      rw (answer_to_lem x.information x.bytes auth (awaiting rest conn) h f) refl

  unasked :
      (id : RequestId) (res : ResponseData) (rest : List Item) (auth : A) (conn : Connection)
      (r : Response)
      → IsNoChallenge r
      → handshake_step ch base64 process id res rest
          (do_auth_handshake ch base64 process id rest)
          auth
          conn
          r
        ≡ finish_from ch base64 process id res rest conn
  unfolding handshake_step
  unasked id res rest auth conn (Response.continue c i) n = absurd n
  unasked id res rest auth conn _ n = refl

  answered-awaiting :
      (xs : List Challenge) (auth : A) (rest items : List Item) (conn : Connection)
      → awaiting rest (answered xs auth (awaiting items conn))
        ≡ awaiting rest (answered xs auth conn)
  answered-awaiting [] auth rest items conn = refl
  answered-awaiting (x ∷ xs) auth rest items conn =
      answered-awaiting xs (process x.bytes auth).1 rest items
        (issued_untagged (base64.encode (process x.bytes auth).0) conn)

  finishes :
      (id : RequestId) (res : ResponseData) (rest : List Item) (conn : Connection) (d : Decision)
      → check_done_ok ch id (IoResult.ok res ∷ rest) none
        ≡ (decision_outcome d, record { incoming = decision_rest d; chan = none })
      → finish_from ch base64 process id res rest conn
        ≡ attempted ch (decision_outcome d) (awaiting (decision_rest d) conn)
  unfolding finish_from
  finishes id res rest conn d e =
      let e' : check_done_ok_from ch id res rest none
          ≡ (decision_outcome d, record { incoming = decision_rest d; chan = none }) =
        unfold check_done_ok in e in
      rw e' (finish-attempted ch (decision_outcome d) _)

  decided :
      (id : RequestId) (before : List ResponseData) (d : Decision) (auth : A) (conn : Connection)
      → EndsChallenges before
      → AllQuiet id before
      → IsDecision d
      → do_auth_handshake ch base64 process id
          (map IoResult.ok before ++ decision_items id d)
          auth
          conn
        ≡ attempted ch (decision_outcome d) (awaiting (decision_rest d) conn)
  unfolding do_auth_handshake handshake_step finish_from
  decided id (r ∷ before) d auth conn n q w =
      unasked id r _ auth conn r.parsed n
      ∙ finishes id r _ conn d (check_done_ok_alone ch id (r ∷ before) d q w)
  decided id [] (succeeded o c i after) auth conn n q w =
      finishes id _ after conn (succeeded o c i after)
        (check_done_ok_alone ch id [] (succeeded o c i after) q w)
  decided id [] (refused o t s c i after) auth conn n q w =
      finishes id _ after conn (refused o t s c i after)
        (check_done_ok_alone ch id [] (refused o t s c i after) q w)
  decided id [] lost auth conn n q w = refl
  decided id [] (broken e after) auth conn n q w = refl

  -- A handshake in which the server asks any number of times and then decides: each challenge is decoded
  -- and given to the authenticator, in order, and its answer goes out, encoded, as an untagged line. Then
  -- the outcome is the decision: a session for the tagged `OK`, and the error beside the client for
  -- anything else.
  pub do_auth_handshake_lem :
      (id : RequestId) (xs : List Challenge) (before : List ResponseData) (d : Decision) (auth : A)
      (conn : Connection)
      → AllStand xs
      → EndsChallenges before
      → AllQuiet id before
      → IsDecision d
      → conn.stream.faults ≡ []
      → do_auth_handshake ch base64 process id
          (map challenge_item xs ++ (map IoResult.ok before ++ decision_items id d))
          auth
          conn
        ≡ attempted ch (decision_outcome d) (awaiting (decision_rest d) (answered xs auth conn))
  do_auth_handshake_lem id [] before d auth conn a n q w f = decided id before d auth conn n q w
  do_auth_handshake_lem id (x ∷ xs) before d auth conn (a, as') n q w f =
      let rest = map challenge_item xs ++ (map IoResult.ok before ++ decision_items id d) in
      one_round id x rest auth conn a f
      ∙ do_auth_handshake_lem id xs before d (process x.bytes auth).1
          (awaiting rest (issued_untagged (base64.encode (process x.bytes auth).0) conn)) as' n q w
          f
      ∙ ap (attempted ch (decision_outcome d))
          (answered-awaiting xs (process x.bytes auth).1 (decision_rest d) rest _)

  -- `authenticate` where the writes succeed and the server first sends challenges, each with no
  -- text or with base64 text, then responses of which the first is no challenge, and then decides:
  -- the `AUTHENTICATE` line goes out with a fresh tag; the authenticator gets each challenge in
  -- order, and its answers go out, encoded, as untagged lines; and there is a session for the
  -- tagged `OK`, and for any other decision its error beside the client.
  pub authenticate_lem :
      (auth_type : Bytes) (xs : List Challenge) (before : List ResponseData) (d : Decision)
      (auth : A) (conn : Connection)
      → conn.stream.incoming
        ≡ map challenge_item xs ++ (map IoResult.ok before ++ decision_items (next_tag conn) d)
      → AllStand xs
      → EndsChallenges before
      → AllQuiet (next_tag conn) before
      → IsDecision d
      → conn.stream.faults ≡ []
      → authenticate ch base64 process auth_type auth conn
        ≡ attempted ch (decision_outcome d) (
            awaiting
              (decision_rest d)
              (answered xs auth (issued (codes "AUTHENTICATE " ++ auth_type) conn)))
  unfolding authenticate after_command
  authenticate_lem auth_type xs before d auth conn i a n q w f =
      let line = codes "AUTHENTICATE " ++ auth_type in
      rw (run_command_lem line conn f) (
        ap
          (λ items.
            do_auth_handshake ch base64 process (next_tag conn) items auth (issued line conn))
          i
        ∙ do_auth_handshake_lem (next_tag conn) xs before d auth (issued line conn) a n q w f)
