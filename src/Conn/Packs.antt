-- ===== src/Conn/Packs.antt =====
-- minecraft/conn.go: what both sides of a Conn do with its resource packs and its game data.
use gophertunnel.Prelude.{
  ℕ, Bool, true, false, ◌&&◌, none, some, List, [], ◌∷◌, ◌+◌, ◌-◌, ◌^◌, not, ltb, if◌then◌else◌,
  bytes_equal,
}
use gophertunnel.Prelude.Results.{Result, err}
use gophertunnel.Faults.{Fault, nil_pointer}
use gophertunnel.Packs.{Pack, has_behaviours}
use gophertunnel.Packs.Queue.{ResourcePackQueue}
use gophertunnel.Packet.PackTransfer.{StackResourcePack}
use gophertunnel.Conn.Messages.{ItemEntry}
use gophertunnel.Conn.State.{Exempted, Conn, Action}

-- A method of `conn.packQueue`, which is nil before the packs are known.
unfoldable pub with_queue :
    {A : Type 0} → (ResourcePackQueue → Result Fault A × ResourcePackQueue) → Action A
with_queue f s = elim s.pack_queue [
  | none ↦ (err nil_pointer, s)
  | some queue ↦ ((f queue).0, record s { pack_queue = some (f queue).1 })
]

-- `exemptedPacks`
abbrev pub exempted_packs : List Exempted
exempted_packs =
    record {
      uuid =
          100 ∷ 51 ∷ 52 ∷ 99 ∷ 102 ∷ 97 ∷ 52 ∷ 98 ∷ 45 ∷ 50 ∷ 97 ∷ 100 ∷ 49 ∷ 45 ∷ 52 ∷ 53 ∷ 51
          ∷ 100 ∷ 45 ∷ 97 ∷ 48 ∷ 100 ∷ 98 ∷ 45 ∷ 54 ∷ 54 ∷ 56 ∷ 98 ∷ 52 ∷ 50 ∷ 57 ∷ 97 ∷ 51 ∷ 101
          ∷ 97 ∷ 48 ∷ [];
      version = 49 ∷ 46 ∷ 50 ∷ 54 ∷ 46 ∷ 52 ∷ 48 ∷ [];
    }
    ∷ record {
      uuid =
          98 ∷ 52 ∷ 49 ∷ 99 ∷ 50 ∷ 55 ∷ 56 ∷ 53 ∷ 45 ∷ 99 ∷ 53 ∷ 49 ∷ 50 ∷ 45 ∷ 52 ∷ 97 ∷ 52 ∷ 57
          ∷ 45 ∷ 97 ∷ 102 ∷ 53 ∷ 54 ∷ 45 ∷ 51 ∷ 97 ∷ 56 ∷ 55 ∷ 97 ∷ 102 ∷ 100 ∷ 52 ∷ 55 ∷ 99 ∷ 53
          ∷ 55 ∷ [];
      version = 49 ∷ 46 ∷ 50 ∷ 49 ∷ 46 ∷ 51 ∷ 48 ∷ [];
    }
    ∷ record {
      uuid =
          97 ∷ 52 ∷ 100 ∷ 102 ∷ 48 ∷ 99 ∷ 98 ∷ 51 ∷ 45 ∷ 49 ∷ 55 ∷ 98 ∷ 101 ∷ 45 ∷ 52 ∷ 49 ∷ 54 ∷ 51
          ∷ 45 ∷ 56 ∷ 56 ∷ 100 ∷ 55 ∷ 45 ∷ 102 ∷ 99 ∷ 102 ∷ 55 ∷ 48 ∷ 48 ∷ 50 ∷ 98 ∷ 57 ∷ 51 ∷ 53
          ∷ 100 ∷ [];
      version = 49 ∷ 46 ∷ 50 ∷ 49 ∷ 46 ∷ 50 ∷ 48 ∷ [];
    }
    ∷ record {
      uuid =
          100 ∷ 49 ∷ 57 ∷ 97 ∷ 100 ∷ 102 ∷ 102 ∷ 101 ∷ 45 ∷ 97 ∷ 50 ∷ 101 ∷ 49 ∷ 45 ∷ 52 ∷ 98 ∷ 48
          ∷ 50 ∷ 45 ∷ 56 ∷ 52 ∷ 51 ∷ 54 ∷ 45 ∷ 99 ∷ 97 ∷ 52 ∷ 53 ∷ 56 ∷ 51 ∷ 51 ∷ 54 ∷ 56 ∷ 99 ∷ 56
          ∷ 57 ∷ [];
      version = 49 ∷ 46 ∷ 50 ∷ 49 ∷ 46 ∷ 49 ∷ 48 ∷ [];
    }
    ∷ record {
      uuid =
          56 ∷ 53 ∷ 100 ∷ 53 ∷ 54 ∷ 48 ∷ 51 ∷ 100 ∷ 45 ∷ 50 ∷ 56 ∷ 50 ∷ 52 ∷ 45 ∷ 52 ∷ 98 ∷ 50 ∷ 49
          ∷ 45 ∷ 56 ∷ 48 ∷ 52 ∷ 52 ∷ 45 ∷ 51 ∷ 52 ∷ 102 ∷ 52 ∷ 52 ∷ 49 ∷ 102 ∷ 52 ∷ 102 ∷ 99 ∷ 101
          ∷ 49 ∷ [];
      version = 49 ∷ 46 ∷ 50 ∷ 49 ∷ 46 ∷ 48 ∷ [];
    }
    ∷ record {
      uuid =
          101 ∷ 57 ∷ 55 ∷ 55 ∷ 99 ∷ 100 ∷ 49 ∷ 51 ∷ 45 ∷ 48 ∷ 97 ∷ 49 ∷ 49 ∷ 45 ∷ 52 ∷ 54 ∷ 49 ∷ 56
          ∷ 45 ∷ 57 ∷ 54 ∷ 102 ∷ 98 ∷ 45 ∷ 48 ∷ 51 ∷ 100 ∷ 102 ∷ 101 ∷ 57 ∷ 99 ∷ 52 ∷ 51 ∷ 54 ∷ 48
          ∷ 56 ∷ [];
      version = 49 ∷ 46 ∷ 50 ∷ 48 ∷ 46 ∷ 54 ∷ 48 ∷ [];
    }
    ∷ record {
      uuid =
          48 ∷ 54 ∷ 55 ∷ 52 ∷ 55 ∷ 50 ∷ 49 ∷ 99 ∷ 45 ∷ 97 ∷ 48 ∷ 97 ∷ 97 ∷ 45 ∷ 52 ∷ 49 ∷ 97 ∷ 49
          ∷ 45 ∷ 57 ∷ 98 ∷ 97 ∷ 56 ∷ 45 ∷ 49 ∷ 101 ∷ 100 ∷ 51 ∷ 51 ∷ 101 ∷ 97 ∷ 51 ∷ 101 ∷ 55 ∷ 101
          ∷ 100 ∷ [];
      version = 49 ∷ 46 ∷ 50 ∷ 48 ∷ 46 ∷ 53 ∷ 48 ∷ [];
    }
    ∷ record {
      uuid =
          48 ∷ 102 ∷ 98 ∷ 97 ∷ 52 ∷ 48 ∷ 54 ∷ 51 ∷ 45 ∷ 100 ∷ 98 ∷ 97 ∷ 49 ∷ 45 ∷ 52 ∷ 50 ∷ 56 ∷ 49
          ∷ 45 ∷ 57 ∷ 98 ∷ 56 ∷ 57 ∷ 45 ∷ 102 ∷ 102 ∷ 57 ∷ 51 ∷ 57 ∷ 48 ∷ 54 ∷ 53 ∷ 51 ∷ 53 ∷ 51
          ∷ 48 ∷ [];
      version = 49 ∷ 46 ∷ 48 ∷ 46 ∷ 48 ∷ [];
    }
    ∷ []

-- The first two loops of `hasPack`.
abbrev pub is_exempted : List ℕ → List ℕ → List Exempted → Bool
is_exempted uuid version [] = false
is_exempted uuid version (pack ∷ packs) =
    let rest = is_exempted uuid version packs in
    if bytes_equal pack.uuid uuid && bytes_equal pack.version version then true else rest

-- The last loop of `hasPack`.
abbrev pub holds_pack : (List ℕ → List ℕ) → List ℕ → List ℕ → Bool → List Pack → Bool
holds_pack uuid_string uuid version behaviours [] = false
holds_pack uuid_string uuid version behaviours (pack ∷ packs) =
    let rest = holds_pack uuid_string uuid version behaviours packs in
    if bytes_equal (uuid_string pack.uuid) uuid
      && bytes_equal pack.version version
      && (if has_behaviours pack then behaviours else not behaviours)
    then true
    else rest

unfoldable pub has_pack : (List ℕ → List ℕ) → Conn → List ℕ → List ℕ → Bool → Bool
has_pack uuid_string conn uuid version behaviours =
    if is_exempted uuid version exempted_packs
    then true
    else if is_exempted uuid version conn.ignored_resource_packs
    then true
    else holds_pack uuid_string uuid version behaviours conn.resource_packs

-- The loop of `handleResourcePackStack`: whether no pack is missing.
abbrev pub has_all : (List ℕ → List ℕ) → Conn → List StackResourcePack → Bool
has_all uuid_string conn [] = true
has_all uuid_string conn (pack ∷ packs) =
    let rest = has_all uuid_string conn packs in
    if has_pack uuid_string conn pack.uuid pack.version false then rest else false

-- "minecraft:shield"
abbrev pub shield_name : List ℕ
shield_name =
    109 ∷ 105 ∷ 110 ∷ 101 ∷ 99 ∷ 114 ∷ 97 ∷ 102 ∷ 116 ∷ 58 ∷ 115 ∷ 104 ∷ 105 ∷ 101 ∷ 108 ∷ 100 ∷ []

-- The loop that stores the runtime ID of the shield, as the pattern of an int32.
abbrev pub find_shield : List ItemEntry → ℕ → ℕ
find_shield [] shield = shield
find_shield (item ∷ items) shield = find_shield items (
    if bytes_equal item.name shield_name
    then (if ltb item.runtime_id (2 ^ 15)
        then item.runtime_id
        else item.runtime_id + (2 ^ 32 - 2 ^ 16))
    else shield)
