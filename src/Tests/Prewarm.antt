-- ===== src/Tests/Prewarm.antt =====
-- The theorem on the pre-warming of the cache, at one port that is not in it.
use snmp_olt_zte.Common.{text_key, ℕ, refl, Bool, false, [], ◌∷◌, pos, insert}
use snmp_olt_zte.Usecase.Lists.{info_key}
use snmp_olt_zte.Usecase.Prewarm.{pre_warm, ports, IsWarm, IsReadable, pre_warm-filled}
use snmp_olt_zte.Tests.Stores.{
  map_redis, map_redis-IsRedis, codec_json, codec_json-IsJson, codec_info, codec_serial,
}
use snmp_olt_zte.Tests.Port.{olt, port_config, device, valid, listed, onus}

abbrev never : ℕ → Bool
never n = false

port-IsReadable :
    IsReadable map_redis map_redis-IsRedis
      (codec_json codec_info)
      (codec_json codec_serial)
      olt
      device
      (pos 3)
      (pos 1)
port-IsReadable = record { config = port_config; valid = valid; rows = onus; walked = listed }

pre_warm-filled_example :
    IsWarm map_redis map_redis-IsRedis
      (codec_json codec_info)
      (codec_json codec_serial)
      olt
      device
      (info_key olt (pos 3) (pos 1))
      (pre_warm map_redis
        (codec_json codec_info)
        (codec_json codec_serial)
        olt
        device
        never
        0
        (ports ((3, 1) ∷ []))
        [])
pre_warm-filled_example =
    pre_warm-filled map_redis map_redis-IsRedis (codec_json codec_info) (codec_json codec_serial)
      olt device (codec_json-IsJson codec_info) (λ k v seconds s. (insert k v s, refl)) never
      (λ n. refl) 0 [] [] 3 1 [] port-IsReadable
