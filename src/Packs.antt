-- ===== src/Packs.antt =====
-- minecraft/resource/pack.go: what a Pack says of itself. Reading one from an archive is not here.
-- minecraft/resource_pack_delivery.go and the keys of minecraft/resource_pack_cache.go.
pub mod Queue
pub mod Names
pub mod Requests
pub mod Transfer
pub mod Delivery
mod Runs
use gophertunnel.Prelude.{
  ℕ, ◌+◌, ◌-◌, ◌*◌, ◌/◌, ◌%◌, ◌^◌, Bool, true, false, ◌&&◌, ◌||◌, not, List, [], ◌∷◌, ◌++◌, ltb,
  leb, ◌==◌, if◌then◌else◌, length, take, drop, bytes_equal,
}
use gophertunnel.Prelude.Results.{Result, ok, err}
use gophertunnel.Faults.{Fault, unread_chunk, divide_by_zero}

-- The manifest as far as it is read here: the header's UUID, the string that `Version` makes of its
-- version, the `Type` of each module, and `worldTemplate`.
pub record Pack : Type 0 where
  pub uuid : List ℕ
  pub version : List ℕ
  pub modules : List (List ℕ)
  pub world_template : Bool
  pub download_url : List ℕ
  pub content : List ℕ
  pub content_key : List ℕ
  pub checksum : List ℕ

-- "client_data", "data" and "resources"
abbrev pub client_data : List ℕ
client_data = 99 ∷ 108 ∷ 105 ∷ 101 ∷ 110 ∷ 116 ∷ 95 ∷ 100 ∷ 97 ∷ 116 ∷ 97 ∷ []

abbrev pub data_type : List ℕ
data_type = 100 ∷ 97 ∷ 116 ∷ 97 ∷ []

abbrev pub resources : List ℕ
resources = 114 ∷ 101 ∷ 115 ∷ 111 ∷ 117 ∷ 114 ∷ 99 ∷ 101 ∷ 115 ∷ []

-- The loop of the three predicates: whether a module passes the test.
abbrev pub any_module : (List ℕ → Bool) → List (List ℕ) → Bool
any_module test [] = false
any_module test (m ∷ ms) = let rest = any_module test ms in if test m then true else rest

unfoldable pub has_scripts : Pack → Bool
has_scripts pack = any_module (λ m. bytes_equal m client_data) pack.modules

unfoldable pub has_behaviours : Pack → Bool
has_behaviours pack =
    any_module (λ m. bytes_equal m client_data || bytes_equal m data_type) pack.modules

unfoldable pub has_textures : Pack → Bool
has_textures pack = any_module (λ m. bytes_equal m resources) pack.modules

unfoldable pub encrypted : Pack → Bool
encrypted pack = not (length pack.content_key == 0)

unfoldable pub with_content_key : Pack → List ℕ → Pack
with_content_key pack key = record pack { content_key = key }

-- `DataChunkCount`, which panics on a chunk size of 0.
unfoldable pub data_chunk_count : Pack → ℕ → Result Fault ℕ
data_chunk_count pack len =
    let count = length pack.content / len in
    if len == 0
    then err divide_by_zero
    else if length pack.content % len == 0
    then ok count
    else ok (count + 1)

-- `ReadAt` into a slice of `n` bytes, cut to the bytes read where it reports the end of the content:
-- `bytes.Reader.ReadAt`, which refuses a negative offset.
unfoldable pub read_at : Pack → ℕ → ℕ → Result Fault (List ℕ)
read_at pack n off =
    if leb (2 ^ 63) off then err unread_chunk else ok (take n (drop off pack.content))

-- A delay in nanoseconds: negative, or a number.
pub data Delay : Type 0 where
  negative : Delay
  delay : ℕ → Delay

pub record DeliveryConfig : Type 0 where
  pub chunk_size : ℕ
  pub chunk_send_delay : Delay

abbrev pub default_delivery_config : DeliveryConfig
default_delivery_config = record {
  chunk_size = 1024 * 128;
  chunk_send_delay = delay (200 * 10 ^ 6);
}

abbrev pub normalized_delay : Delay → Delay
normalized_delay negative = delay 0
normalized_delay (delay d) = if d == 0 then default_delivery_config.chunk_send_delay else delay d

unfoldable pub normalized : DeliveryConfig → DeliveryConfig
normalized config = record {
  chunk_size =
      if config.chunk_size == 0 then default_delivery_config.chunk_size else config.chunk_size;
  chunk_send_delay = normalized_delay config.chunk_send_delay;
}

pub record CacheKey : Type 0 where
  pub uuid : List ℕ
  pub version : List ℕ
  pub size : ℕ

-- `Matches`
unfoldable pub matches : CacheKey → Pack → Bool
matches key pack =
    bytes_equal pack.uuid key.uuid
    && bytes_equal pack.version key.version
    && (length pack.content == key.size)
