-- ===== src/Platform.antt =====
-- What the sources call and do not implement: the SHA-256 digest, the regular expression engine,
-- the URL parser, the decimal value of a character (`\d`, `int`), and the texts of the
-- interpreter's own exceptions. Each is a parameter of the definitions that use it.
use agent_runtime_observator.Prelude.{ℕ, String, Char, Bool, Option}
use agent_runtime_observator.Outcome.{Outcome, Fault}

pub record Platform : Type 0 where
  -- `hashlib.sha256(text.encode()).hexdigest()`
  pub sha256_hex : String → String
  -- `re.search(pattern, text)` as a truth value
  pub re_search : String → String → Outcome Bool
  -- `urlparse(url)`: its `netloc` and its `path`
  pub url_parts : String → Outcome (String × String)
  pub decimal_value : Char → Option ℕ
  -- `str(exc)`
  pub fault_text : Fault → String
