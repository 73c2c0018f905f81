-- ===== src/Api/Reply.antt =====
-- The replies of AgentAPI.cpp: {"status": "success", ...} with its data, or {"status": "error"}
-- with a message. A time of -1 ("none") is `none`.
use auto_waveform_debugger.Base.{◌≡◌, refl, true, Option, none, some, Str, if◌then◌else◌}
use auto_waveform_debugger.Wave.Database.{WaveDatabase, M, ◌>>=◌, pure, has_signal}

pub data Message : Type 0 where
  signal_not_found start_after_end unparsed_value bad_edge_type bad_expression bad_direction :
      Message
  resolution_not_positive resolution_not_integer sample_period_not_positive : Message
  sample_period_not_integer invalid_pattern only_for_fsdb : Message
  no_signals no_output_path bad_mode : Message
  unknown_signal : Str → Message
  unsupported_type : Str → Message

pub data Reply (A : Type 0) : Type 0 where
  success : A → Reply A
  error : Message → Reply A

-- The result of a function that runs on fuel.
abbrev pub returned : {A : Type 0} → Option A → M A
returned none db = none
returned (some a) db = some (a, db)

-- The first line of most handlers.
abbrev pub with_signal : {A : Type 0} → Str → M (Reply A) → M (Reply A)
with_signal path body = do
  known ← has_signal path
  if known then body else pure (error signal_not_found)

-- How the next action goes on from one that returned.
pub >>=-eq_some :
    {A B : Type 0} (m : M A) (f : A → M B) (db : WaveDatabase) (a : A)
    → m db ≡ some (a, db)
    → (m >>= f) db ≡ f a db
>>=-eq_some m f db a e = rw (e, ◌>>=◌) refl

pub with_signal_known :
    {A : Type 0} (path : Str) (body : M (Reply A)) (db : WaveDatabase)
    → has_signal path db ≡ some (true, db)
    → with_signal path body db ≡ body db
with_signal_known path body db e = >>=-eq_some (has_signal path) _ db true e
