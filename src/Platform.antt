-- ===== src/Platform.antt =====
-- What the code takes from Python's standard library and this model does not compute: hashing,
-- message authentication, base64 and the printed form of a time. Operations only; a theorem that
-- needs a property of one of them states it as a hypothesis.
use effect_broker.Prelude.{Text}
use effect_broker.Models.{Time}

pub record Platform : Type 0 where
  -- hashlib.sha256(text.encode("utf-8")).hexdigest()
  pub sha256_hex : Text → Text
  -- hmac.new(key, message.encode(), hashlib.sha256).digest()
  pub hmac_sha256 : Text → Text → Text
  -- base64.urlsafe_b64encode(digest).decode("ascii")
  pub urlsafe_b64encode : Text → Text
  -- datetime.isoformat
  pub isoformat : Time → Text
