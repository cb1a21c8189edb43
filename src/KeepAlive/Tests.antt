-- ===== src/KeepAlive/Tests.antt =====
-- Keep alive with the default settings and with those of a basestation.
use nabto_embedded_sdk.Base.{
  ◌/◌, ◌≡◌, ◌↔◌, refl, true, false, some, arith, length, drop, replicate, inr,
}
use nabto_embedded_sdk.KeepAlive.{
  KeepAlive, ka_timeout, default_interval, default_retry_interval, reset, set_settings, should_send,
  create_request, handle_request, packet_sent,
}
use nabto_embedded_sdk.KeepAlive.Polls.{poll_many, expected, timeout_exact}
use nabto_embedded_sdk.KeepAlive.Settings.{IsConsistent, reset-set_settings}
use nabto_embedded_sdk.KeepAlive.Packets.{request_echo}

abbrev idle : KeepAlive
idle = record {
  ka_interval = 30000;
  ka_retry_interval = 2000;
  ka_max_retries = 15;
  last_recv_count = 10;
  last_sent_count = 10;
  lost_keep_alives = 0;
  n = 15;
  is_sending = false;
  send_buffer = replicate 18 0;
}

abbrev quick : KeepAlive
quick = record idle { ka_interval = 10000; ka_retry_interval = 5000; ka_max_retries = 3; n = 2 }

-- The settings of a context are those of `init` and of the settings that are stored.
quick_settings : set_settings idle 10000 5000 3 ≡ some quick
unfolding set_settings
quick_settings = refl

-- The sixth poll behind the first times out: 3 retries, 2 silent polls, and one.
expected-quick : expected quick 6 ≡ ka_timeout
unfolding expected
expected-quick = refl

timeout_exact_example : (should_send (poll_many 6 quick 12 10) 12 10).1 ≡ expected quick 6
timeout_exact_example =
    timeout_exact quick 12 10 6 refl (inr (omega arith)) (omega arith) (omega arith)

-- After these settings and a reset, the interval is that of 15 polls, and the context counts 2.
reset-set_settings_run :
    IsConsistent (reset quick).0 ↔ (10000 / 5000 ≡ default_interval / default_retry_interval)
reset-set_settings_run = reset-set_settings idle quick 10000 5000 3 quick_settings

reset_inconsistent : ¬ IsConsistent (reset quick).0
reset_inconsistent c =
    absurd (omega (arith, (reset-set_settings idle quick 10000 5000 3 quick_settings).0 c))

request_echo_run :
    let req = (create_request quick).send_buffer in
    let (d', answered) = handle_request idle req (length req) in
    (answered ≡ true)
    × (drop 2 d'.send_buffer ≡ drop 2 req)
    × (length d'.send_buffer ≡ 18)
    × ((packet_sent d').is_sending ≡ false)
request_echo_run = request_echo quick idle refl
