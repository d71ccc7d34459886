-- ===== src/Models/FieldNames.antt =====
-- The fields of `litellm_params` and `model_info` that a customer may set.
use secure_litellm_on_azure.Base.{String, Bool, if◌then◌else◌, List, [], ◌∷◌, ◌++◌}

abbrev pub cost_fields : List String
cost_fields =
    "input_cost_per_token" ∷ "output_cost_per_token" ∷ "cache_creation_input_token_cost"
    ∷ "cache_read_input_token_cost" ∷ "input_cost_per_token_above_128k_tokens"
    ∷ "output_cost_per_token_above_128k_tokens" ∷ "input_cost_per_token_above_200k_tokens"
    ∷ "output_cost_per_token_above_200k_tokens"
    ∷ "cache_creation_input_token_cost_above_200k_tokens"
    ∷ "cache_read_input_token_cost_above_200k_tokens" ∷ "input_cost_per_image"
    ∷ "input_cost_per_image_token" ∷ "input_cost_per_audio_token" ∷ "output_cost_per_audio_token"
    ∷ "output_cost_per_reasoning_token" ∷ "input_cost_per_character" ∷ "output_cost_per_character"
    ∷ "input_cost_per_audio_per_second" ∷ "input_cost_per_video_per_second"
    ∷ "input_cost_per_video_per_second_above_128k_tokens" ∷ "input_cost_per_second"
    ∷ "output_cost_per_second" ∷ "input_cost_per_token_priority" ∷ "output_cost_per_token_priority"
    ∷ "input_cost_per_token_flex" ∷ "output_cost_per_token_flex" ∷ "input_cost_per_token_batches"
    ∷ "output_cost_per_token_batches" ∷ []

abbrev pub positive_ints : List String
positive_ints = "max_tokens" ∷ "max_completion_tokens" ∷ "n" ∷ "rpm" ∷ "tpm" ∷ "dimensions" ∷ []

abbrev pub other_params : List String
other_params =
    "seed" ∷ "top_logprobs" ∷ "num_retries" ∷ "temperature" ∷ "top_p" ∷ "presence_penalty"
    ∷ "frequency_penalty" ∷ "timeout" ∷ "stream" ∷ "logprobs" ∷ "stop" ∷ "reasoning_effort"
    ∷ "encoding_format" ∷ "response_format" ∷ []

abbrev pub other_info : List String
other_info = "mode" ∷ "max_tokens" ∷ "max_input_tokens" ∷ "max_output_tokens" ∷ []

-- `PARAM_FIELDS`, or `PARAM_FIELDS - {"api_version"}` outside a catalog
unfoldable pub param_fields : Bool → List String
param_fields catalog =
    let fields : List String = positive_ints ++ other_params in
    if catalog then "api_version" ∷ fields else fields

-- `INFO_FIELDS`, or `INFO_FIELDS - {"base_model"}` outside a catalog
unfoldable pub info_fields : Bool → List String
info_fields catalog =
    let fields : List String = cost_fields ++ other_info in
    if catalog then "base_model" ∷ fields else fields
