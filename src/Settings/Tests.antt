-- ===== src/Settings/Tests.antt =====
-- The options of a local model server, and the theorem of Settings at them.
use vibe_voice_vendor.Base.{
  ◌≡◌, refl, ◌↔◌, false, [], ◌∷◌, codes, text_eq, ok, err, natural, negative, finite, nan,
}
use vibe_voice_vendor.Settings.{
  vibevoice, groq, Options, bad_max_queue_size, bad_temperature, bad_top_p, no_groq_api_key,
  validation_error, settings_of, configure,
}
use vibe_voice_vendor.Settings.Configured.{IsConfigured, configure-ok_iff}

abbrev given : Options
given = record {
  asr_backend = vibevoice;
  max_audio_bytes = natural 46;
  max_queue_size = natural 1;
  vllm_base_url = codes "http://localhost:8000";
  vllm_model_name = codes "vibevoice";
  vllm_temperature = finite false (record { num = 0; den = 1 });
  vllm_top_p = finite false (record { num = 1; den = 1 });
  groq_api_key = [];
  groq_model_name = codes "whisper-large-v3";
}

-- The bounds of the numbers, at and beyond them.
starts :
    (configure given ≡ ok (settings_of given))
    × (configure (record given { asr_backend = groq }) ≡ err no_groq_api_key)
    × (configure (record given {
      max_queue_size = negative;
      vllm_temperature = finite false (record { num = 2; den = 1 });
      vllm_top_p = nan;
    })
        ≡ err (validation_error (bad_max_queue_size ∷ bad_temperature ∷ bad_top_p ∷ [])))
unfolding configure text_eq
starts = (refl, refl, refl)

configure-ok_iff_example :
    (configure given ≡ ok (settings_of given)) ↔ IsConfigured given (settings_of given)
configure-ok_iff_example = configure-ok_iff given (settings_of given)
