-- ===== src/WsGateway/Messages.antt =====
-- transport/ws-gateway.js: every message leaves a connection trusted.
use agent_mobile.Common.{
  ℕ, ◌+◌, ◌≡◌, refl, Bool, some, [], ◌∷◌, ◌++◌, ◌==◌, length, length-append, arith, if-cases,
  Option-match,
}
use agent_mobile.Channel.{Bytes, Aead, Channel, send, recv_bytes}
use agent_mobile.Channel.Fresh.{Sent-match}
use agent_mobile.Channel.Keys.{send-SameKeys, recv_bytes-SameKeys}
use agent_mobile.Frames.{code, cmd, audio, gap, ping, pong, unpack, unpack_audio}
use agent_mobile.Handshake.Base.{KeyPair, Crypto}
use agent_mobile.WsGateway.{
  Json, Server, Connection, on_greeting, transmit, on_cmd, on_audio, on_opened, on_frame,
  on_message, gap_seen,
}
use agent_mobile.WsGateway.Trusted.{
  Trusted, Fine, unmoved, counted, on_hello-Fine, on_confirm-Fine, Fine-trans, moved,
}

module _ {I D : Type 0} (crypto : Crypto) (aead : Aead) (json : Json I D) (identity : KeyPair) where
  transmit-Fine :
      (s : Server) (conn : Connection) (ch : Channel) (pt : Bytes) (type : ℕ)
      → conn.channel ≡ some ch
      → Trusted crypto identity s.allowlist conn
      → Fine crypto identity s conn (transmit crypto aead json identity s conn ch pt type)
  unfolding transmit
  transmit-Fine s conn ch pt type e v =
      Sent-match (Fine crypto identity s conn) (send aead ch pt type 0) _ _
        (λ ch' f h. record {
          allowlist = refl;
          connections = refl;
          authenticated = rw e refl;
          frames = λ k. k;
          trusted = moved crypto identity s conn ch ch' e (send-SameKeys aead ch pt type 0 h) v;
        })
        (unmoved crypto identity s conn [] v)

  on_cmd-Fine :
      (s : Server) (conn : Connection) (ch : Channel) (pt : Bytes)
      → conn.channel ≡ some ch
      → Trusted crypto identity s.allowlist conn
      → Fine crypto identity s conn (on_cmd crypto aead json identity s conn ch pt)
  unfolding on_cmd
  on_cmd-Fine s conn ch pt e v =
      let c =
        counted crypto identity s conn [] (record s { cmds = s.cmds + 1 }) v refl refl refl refl
          refl in
      Option-match (Fine crypto identity s conn) (json.parse pt) _ _ (λ _. c)
        (λ p _.
          Fine-trans crypto identity s conn [] _ conn _ c
            (transmit-Fine _ conn ch _ (code cmd) e v))

  on_audio-Fine :
      (s : Server) (conn : Connection) (ch : Channel) (pt : Bytes)
      → conn.channel ≡ some ch
      → Trusted crypto identity s.allowlist conn
      → Fine crypto identity s conn (on_audio crypto aead json identity s conn ch pt)
  unfolding on_audio
  on_audio-Fine s conn ch pt e v =
      Option-match (Fine crypto identity s conn) (unpack_audio pt) _ _
        (λ _. unmoved crypto identity s conn [] v)
        (λ a _.
          let heard : Server = record s {
            audio_seqs = s.audio_seqs ++ (a.0 ∷ []);
            audio_frames = s.audio_frames + 1;
            bytes = s.bytes + length a.1.1;
          } in
          let conn' : Connection = record conn { last_audio_seq = some a.0 } in
          let v' : Trusted crypto identity s.allowlist conn' = record {
            waits = v.waits;
            live = v.live;
          } in
          Fine-trans crypto identity s conn (gap_seen conn.last_audio_seq a.0) heard conn' _
            (record {
              allowlist = refl;
              connections = refl;
              authenticated = refl;
              frames = λ h. omega (arith, h, length-append s.audio_seqs (a.0 ∷ []));
              trusted = v';
            })
            (if-cases (Fine crypto identity heard conn') s.loopback _ _
              (λ _. transmit-Fine heard conn' ch pt (code audio) e v')
              (λ _. unmoved crypto identity heard conn' [] v')))

  on_opened-Fine :
      (s : Server) (conn : Connection) (ch : Channel) (type : ℕ) (pt : Bytes)
      → conn.channel ≡ some ch
      → Trusted crypto identity s.allowlist conn
      → Fine crypto identity s conn (on_opened crypto aead json identity s conn ch type pt)
  unfolding on_opened
  on_opened-Fine s conn ch type pt e v =
      if-cases (Fine crypto identity s conn) (type == code ping) _ _
        (λ _. transmit-Fine s conn ch [] (code pong) e v)
        (λ _.
          if-cases (Fine crypto identity s conn) (type == code cmd) _ _
            (λ _. on_cmd-Fine s conn ch pt e v)
            (λ _.
              if-cases (Fine crypto identity s conn) (type == code audio) _ _
                (λ _. on_audio-Fine s conn ch pt e v)
                (λ _.
                  if-cases (Fine crypto identity s conn) (type == code gap) _ _
                    (λ _. counted crypto identity s conn [] _ v refl refl refl refl refl)
                    (λ _. unmoved crypto identity s conn [] v))))

  on_frame-Fine :
      (s : Server) (conn : Connection) (ch : Channel) (raw : Bytes)
      → conn.channel ≡ some ch
      → Trusted crypto identity s.allowlist conn
      → Fine crypto identity s conn (on_frame crypto aead json identity s conn ch raw)
  unfolding on_frame
  on_frame-Fine s conn ch raw e v =
      if-cases (Fine crypto identity s conn) s.dead _ _ (λ _. unmoved crypto identity s conn [] v)
        (λ _.
          Option-match (Fine crypto identity s conn) (unpack raw) _ _
            (λ _. unmoved crypto identity s conn [] v)
            (λ f _.
              let ch' = (recv_bytes aead ch f).1 in
              let conn' : Connection = record conn { channel = some ch' } in
              let v' = moved crypto identity s conn ch ch' e (recv_bytes-SameKeys aead ch f) v in
              let opens : Fine crypto identity s conn ([], (s, conn')) = record {
                allowlist = refl;
                connections = refl;
                authenticated = rw e refl;
                frames = λ h. h;
                trusted = v';
              } in
              Option-match (Fine crypto identity s conn) (recv_bytes aead ch f).0 _ _
                (λ _.
                  Fine-trans crypto identity s conn [] s conn' _ opens
                    (counted crypto identity s conn' [] _ v' refl refl refl refl refl))
                (λ pt _.
                  Fine-trans crypto identity s conn [] s conn' _ opens
                    (on_opened-Fine s conn' ch' f.type pt refl v'))))

  pub on_message-Fine :
      (s : Server) (conn : Connection) (raw : Bytes) (is_binary : Bool) (eph : KeyPair)
      → Trusted crypto identity s.allowlist conn
      → Fine crypto identity s conn (on_message crypto aead json identity s conn raw is_binary eph)
  unfolding on_message on_greeting
  on_message-Fine s conn raw is_binary eph v =
      Option-match (Fine crypto identity s conn) conn.channel _ _
        (λ n.
          if-cases (Fine crypto identity s conn) is_binary _ _
            (λ _. unmoved crypto identity s conn [] v)
            (λ _.
              Option-match (Fine crypto identity s conn) (json.message raw) _ _
                (λ _. unmoved crypto identity s conn [] v)
                (λ m _.
                  Option-match (Fine crypto identity s conn) conn.pending _ _
                    (λ _. on_hello-Fine crypto identity s conn m.0 eph v)
                    (λ p w. on_confirm-Fine crypto identity s conn p m.1 n w v))))
        (λ ch e. on_frame-Fine s conn ch raw e v)
