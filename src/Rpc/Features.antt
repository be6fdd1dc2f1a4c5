-- ===== src/Rpc/Features.antt =====
-- `icap_get_subdevice_features` of src/icap.c over bare metal: the description of a subdevice that
-- crosses to the application.
use icap.Prelude.{
  ◌<◌, ℕ, suc, ℤ, pos, negsuc, neg, is_nonneg, not, ◌^◌, ◌≤◌, ◌≡◌, ap, ◌∙◌, Option, none, some, [],
  ◌∷◌, ◌++◌, arith, length, drop, returns, ◌>>=◌, IsInt32, to_u32, if◌then◌else◌, ◌==◌, Run,
}
use icap.Wire.{
  encode_features, decode_features, put_words, Bytes, MsgHeader, Cmd, code, SubdeviceFeatures,
  encode_u32, u32_at, put_u32, get_u32-put_u32, Msg, error_msg_len,
}
use icap.Wire.RoundTrip.{FeaturesFit, decode_features-tail, HeaderFits, decode_msg-encode_msg}
use icap.Core.{ApplicationCallbacks, DeviceCallbacks, State, History, Call, header_for, parse_msg}
use icap.Core.Verdict.{
  Verdict, default, accepted, refused, ask_features, payload_of, reply_header, outcome,
  device_verdict,
}
use icap.Core.Request.{send_msg, get_subdevice_features, features_of_response}
use icap.BareMetal.Transport.{Transport, Platform, RemoteMsg}
use icap.BareMetal.Loop.{link}
use icap.BareMetal.Wait.{waiter}
use icap.BareMetal.Await.{IsClient}
use icap.BareMetal.Copied.{received_in}
use icap.BareMetal.Sends.{request_header, waits_in}
use icap.Rpc.Received.{Received}
use icap.Rpc.Server.{IsServer, parse_msg-request, answered}
use icap.Rpc.Kept.{exchange-kept, reply_header-HeaderFits}
use icap.Rpc.Client.{outcome-verdict}

abbrev FeaturesCallback : Type 0
FeaturesCallback = Option (ℕ → SubdeviceFeatures → History → ℤ × SubdeviceFeatures)

-- What the call returns and leaves in `*features`, for an answer of the callback.
abbrev features_result : SubdeviceFeatures → ℤ × SubdeviceFeatures → ℤ × SubdeviceFeatures
features_result given (ret, features) = if is_nonneg ret then (pos 0, features) else (ret, given)

-- The same for a device, which may have no callback.
abbrev pub features_of :
    SubdeviceFeatures → FeaturesCallback → SubdeviceFeatures → ℕ → History → ℤ × SubdeviceFeatures
features_of given none uninitialised id h = (neg error_msg_len, given)
features_of given (some g) uninitialised id h = features_result given (g id uninitialised h)

abbrev features_verdict : ℕ → ℤ × SubdeviceFeatures → Verdict
features_verdict id (ret, features) =
    if is_nonneg ret
    then accepted (Call.get_subdevice_features id) (encode_features features)
    else refused (Call.get_subdevice_features id) ret

-- What the call makes of the response to a verdict.
abbrev kept_features :
    SubdeviceFeatures → MsgHeader → Verdict → ℕ → Bytes → Bytes → ℤ × SubdeviceFeatures
kept_features given rh v size tail stack =
    features_of_response given (outcome (reply_header rh v) (payload_of v ++ tail))
      (some (received_in (reply_header rh v) (payload_of v) size stack))

-- What it makes of a whole positive response.
abbrev features_in : SubdeviceFeatures → Msg → ℤ × SubdeviceFeatures
features_in given m =
    if not (m.header.payload_len == 28)
    then (neg error_msg_len, given)
    else (pos 0, decode_features m.payload)

kept_features-result :
    (given : SubdeviceFeatures) (rh : MsgHeader) (id : ℕ) (ret : ℤ) (features : SubdeviceFeatures)
    (size : ℕ) (tail stack : Bytes)
    → IsInt32 (features_result given (ret, features)).0
    → FeaturesFit (features_result given (ret, features)).1
    → HeaderFits (reply_header rh (features_verdict id (ret, features)))
    → kept_features given rh (features_verdict id (ret, features)) size tail stack
      ≡ features_result given (ret, features)
unfolding header_for encode_features put_words put_u32
kept_features-result given rh id (pos n) features size tail stack i k f =
    let h = reply_header rh (features_verdict id (pos n, features)) in
    let rest = drop size stack in
    ap (features_in given) (decode_msg-encode_msg h (encode_features features ++ rest) f)
    ∙ ap (λ x. (pos 0, x)) (decode_features-tail features rest k)
kept_features-result given rh id (negsuc n) features size tail stack i k f =
    ap
      (λ x. features_of_response given x (
        some (
          received_in (reply_header rh (features_verdict id (negsuc n, features)))
            (encode_u32 (to_u32 (negsuc n))) size stack)))
      (outcome-verdict rh (features_verdict id (negsuc n, features)) tail i)

kept_features-of :
    (given : SubdeviceFeatures) (rh : MsgHeader) (o : FeaturesCallback) (w : SubdeviceFeatures)
    (id : ℕ) (h : History) (size : ℕ) (tail stack : Bytes)
    → IsInt32 (features_of given o w id h).0
    → FeaturesFit (features_of given o w id h).1
    → HeaderFits (reply_header rh (ask_features o w id h))
    → kept_features given rh (ask_features o w id h) size tail stack ≡ features_of given o w id h
unfolding header_for
kept_features-of given rh none w id h size tail stack i k f =
    ap (features_in given)
      (decode_msg-encode_msg (reply_header rh (default [])) (drop size stack) f)
kept_features-of given rh (some g) w id h size tail stack i k f =
    kept_features-result given rh id (g id w h).0 (g id w h).1 size tail stack i k f

-- What the call makes of the exchange.
abbrev features_from :
    SubdeviceFeatures
    → Run (ℤ × Option Bytes × State Transport)
    → Run (ℤ × Option SubdeviceFeatures × State Transport)
features_from given r = r >>= λ (ret, response, t).
    let (ret', features') = features_of_response given ret response in
    returns (ret', some features', t)

ask_features-small :
    (o : FeaturesCallback) (w : SubdeviceFeatures) (id : ℕ) (h : History)
    → length (payload_of (ask_features o w id h)) ≤ 28
unfolding encode_features encode_u32 put_words put_u32
ask_features-small none w id h = omega arith
ask_features-small (some g) w id h = ground arith

module _ (p q : Platform) (u w : SubdeviceFeatures) (app : ApplicationCallbacks)
    (dev : DeviceCallbacks) (s d : State Transport) (m₁ m₂ : RemoteMsg) (n : ℕ)
    (rest₁ rest₂ stack : Bytes) (id : ℕ) (given : SubdeviceFeatures) where
  -- icap_get_subdevice_features as a remote function call over bare metal, response kept. An
  -- application that has nothing waiting and knows its peer asks for a subdevice with a 32-bit
  -- number; the peer is a device that knows the sender. If the device receives the request as it
  -- was sent, and the application receives, as the only message before the first round of its
  -- wait, the response that the device's callback calls for, with room for it, then the device's
  -- icap_parse_msg returns 0 after calling the callback, if it is set, and sending exactly that
  -- response. The application returns 0 with the callback's description in *features if the
  -- callback did not fail, and otherwise leaves *features alone and returns the callback's error,
  -- or -ICAP_ERROR_MSG_LEN when there is no callback. The number is assumed to be an int32_t, and
  -- the fields of what *features then holds to be 32-bit words.
  pub get_subdevice_features-remote :
      let rh = request_header Cmd.get_dev_features (encode_u32 id) s in
      let v = ask_features dev.get_subdevice_features w id d.history in
      let result = features_of given dev.get_subdevice_features w id d.history in
      id < 2 ^ 32
      → IsClient app m₂.src_addr s
      → IsServer dev m₁.src_addr d
      → Received rh (encode_u32 id) rest₁ m₁
      → Received (reply_header rh v) (payload_of v) rest₂ m₂
      → IsInt32 result.0
      → FeaturesFit result.1
      → length stack ≡ 304
      → m₂.size ≤ length s.icap.transport.last_response
      → p.arrivals (waits_in p Cmd.get_dev_features (encode_u32 id) s).history ≡ m₂ ∷ []
      → (parse_msg (link q) w m₁.src_addr m₁.buffer.bytes m₁.size d
          ≡ returns (pos 0, answered m₁.src_addr rh v d))
        × ((s' : State Transport) × (get_subdevice_features
                (link p)
                (waiter p u (suc n))
                stack
                id
                (some given)
                s
              ≡ returns (result.0, some result.1, s')))
  unfolding get_subdevice_features send_msg device_verdict encode_u32 put_u32 u32_at code
  get_subdevice_features-remote l k v r₁ r₂ i f room fits a =
      let args = encode_u32 id in
      let rh = request_header Cmd.get_dev_features args s in
      let o = dev.get_subdevice_features in
      let verdict = ask_features o w id d.history in
      let small = ask_features-small o w id d.history in
      let (s', e) =
        exchange-kept p u Cmd.get_dev_features args rest₂ stack app verdict s m₂ n k
          (omega (arith, small)) room r₂ fits a in
      (
        parse_msg-request q w Cmd.get_dev_features args rest₁ dev s d m₁ (omega arith) v r₁
            ∙ ap (λ x. returns (pos 0, answered m₁.src_addr rh (ask_features o w x d.history) d))
                (get_u32-put_u32 id rest₁ l),
        (
          s',
          ap (features_from given) e
              ∙ ap (λ (x : ℤ × SubdeviceFeatures). returns (x.0, some x.1, s'))
                  (kept_features-of given rh o w id d.history m₂.size
                    (drop m₂.size s.icap.transport.last_response) stack i f
                    (reply_header-HeaderFits Cmd.get_dev_features args s verdict
                      (omega (arith, small)))),
        ),
      )
