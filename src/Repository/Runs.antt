-- ===== src/Repository/Runs.antt =====
-- internal/repository/postgres/repository.go: the runs of the ingestion and the state of providers.
pub mod Laws
use shaker.Prelude.{
  ℕ, Bool, ◌&&◌, String, Option, none, some, List, [], ◌∷◌, take, if◌then◌else◌, ◌==◌ as nat_eq,
}
use shaker.Go.Time.{Time}
use shaker.Go.Text.{◌==◌}
use shaker.Go.Sql.{find_where, update_where}
use shaker.Earthquake.Event.{Uuid}
use shaker.Repository.Batch.{RunStats}

-- A row of ingestion_runs. The metadata are JSON and the message is text, both as bytes.
pub record IngestionRun : Type 0 where
  pub id : Uuid
  pub provider : String
  pub mode : String
  pub started_at : Time
  pub finished_at : Option Time
  pub status : String
  pub stats : RunStats
  pub error_message : Option (List ℕ)
  pub metadata : List ℕ

-- A row of provider_state, whose primary key is the provider with the key.
pub record ProviderState : Type 0 where
  pub provider : String
  pub state_key : String
  pub state_value : String
  pub updated_at : Time

-- StartRun, with the identity that gen_random_uuid draws
unfoldable pub start_run : Uuid → String → String → Time → List IngestionRun → List IngestionRun
start_run id provider mode now rows =
    record {
      id = id;
      provider = provider;
      mode = mode;
      started_at = now;
      finished_at = none;
      status = "running";
      stats = record { fetched = 0; inserted = 0; updated = 0; unchanged = 0; invalid = 0 };
      error_message = none;
      metadata = 123 ∷ 125 ∷ [];
    }
    ∷ rows

-- the message of an error, cut to 2000 bytes
unfoldable pub cut_message : Option (List ℕ) → Option (List ℕ)
cut_message none = none
cut_message (some message) = some (take 2000 message)

-- FinishRun
unfoldable pub finish_run :
    Uuid
    → String
    → RunStats
    → List ℕ
    → Option (List ℕ)
    → Time
    → List IngestionRun
    → List IngestionRun
unfolding update_where cut_message
finish_run id status stats metadata error now =
    update_where (λ row. nat_eq (IngestionRun.id row) id)
      λ row. record row {
        finished_at = some now;
        status = status;
        stats = stats;
        error_message = cut_message error;
        metadata = metadata;
      }

abbrev pub is_state : String → String → ProviderState → Bool
is_state provider key row = row.provider == provider && row.state_key == key

abbrev value_of : Option ProviderState → Option String
value_of none = none
value_of (some row) = some row.state_value

-- State; `none` is the result false
unfoldable pub state : String → String → List ProviderState → Option String
unfolding find_where
state provider key rows = value_of (find_where (is_state provider key) rows)

-- setState, and SetState as a transaction of it
unfoldable pub set_state : String → String → String → Time → List ProviderState → List ProviderState
set_state provider key value now [] =
    record { provider = provider; state_key = key; state_value = value; updated_at = now } ∷ []
set_state provider key value now (row ∷ rows) =
    let rest = set_state provider key value now rows in
    if is_state provider key row
    then record row { state_value = value; updated_at = now } ∷ rows
    else row ∷ rest
