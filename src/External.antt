-- ===== src/External.antt =====
-- The packages of github.com/viant/afs that the program calls, as parameters of the model.
use smirror.Prelude.{Bytes}

-- Package `url`: the functions are those of the calls `url.Host(u)`, `url.Path(u)`, `url.Base(u, s)`,
-- `url.Scheme(u, "")`, `url.Split(u, s)` and `url.Join(b, e)`.
pub record Urls : Type 0 where
  pub host : Bytes → Bytes
  pub path : Bytes → Bytes
  pub base : Bytes → Bytes × Bytes
  pub scheme : Bytes → Bytes
  pub split : Bytes → Bytes × Bytes
  pub join : Bytes → Bytes → Bytes
