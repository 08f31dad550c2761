-- ===== src/Telemetry/Rejection.antt =====
-- internal/telemetry/frame.go: why a batch or a frame is refused.
use telemetry_one_backend.Base.{ℕ, String, Option, if◌then◌else◌, ◌==◌, string_eq}

abbrev pub max_batch_frames : ℕ
max_batch_frames = 600

pub data FrameError : Type 0 where
  missing_session_id session_id_mismatch empty_frames too_many_frames : FrameError
  invalid_timestamp invalid_speed invalid_rpm invalid_throttle invalid_brake : FrameError
  invalid_steering invalid_fuel invalid_position invalid_yaw invalid_wheel_speed : FrameError
  invalid_lap_distance invalid_lap_number invalid_lap_time : FrameError
  non_monotonic_timestamp lap_number_regressed current_lap_time_regressed : FrameError

unfoldable pub error_text : FrameError → String
error_text missing_session_id = "sessionId is required"
error_text session_id_mismatch = "sessionId must match the route parameter"
error_text empty_frames = "frames must contain at least one frame"
error_text too_many_frames = "frames exceeds maximum batch size"
error_text invalid_timestamp = "timestampUnixMs must be greater than zero"
error_text invalid_speed = "speedMps must be finite and zero or greater"
error_text invalid_rpm = "rpm must be finite and zero or greater"
error_text invalid_throttle = "throttle must be between 0 and 1"
error_text invalid_brake = "brake must be between 0 and 1"
error_text invalid_steering = "steering must be finite"
error_text invalid_fuel = "fuelLiters must be finite and zero or greater"
error_text invalid_position = "position fields must be finite"
error_text invalid_yaw = "yaw fields must be finite when provided"
error_text invalid_wheel_speed =
    "wheel speed fields must be finite and zero or greater when provided"
error_text invalid_lap_distance =
    "lapDistanceMeters must be finite and zero or greater when provided"
error_text invalid_lap_number = "lapNumber must be zero or greater"
error_text invalid_lap_time = "lap time fields must be zero or greater"
error_text non_monotonic_timestamp = "timestampUnixMs must increase within a batch"
error_text lap_number_regressed = "lapNumber must not decrease within a batch"
error_text current_lap_time_regressed = "currentLapMs must not decrease within the same lap"

pub record RejectionError : Type 0 where
  pub code : String
  pub category : String
  pub field : String
  pub frame_index : Option ℕ
  pub message : String
  pub cause : FrameError

unfoldable pub reject : String → String → String → Option ℕ → FrameError → RejectionError
reject code category field frame_index cause = record {
  code = code;
  category = category;
  field = field;
  frame_index = frame_index;
  message = error_text cause;
  cause = cause;
}

pub record RejectionDetails : Type 0 where
  pub rejection_code : String
  pub category : String
  pub field : String
  pub frame_index : Option ℕ
  pub max_frames : ℕ

abbrev pub code_too_many_frames : String
code_too_many_frames = "batch_too_large"

unfoldable pub details : RejectionError → RejectionDetails
details e = record {
  rejection_code = e.code;
  category = e.category;
  field = e.field;
  frame_index = e.frame_index;
  max_frames = if e.code == code_too_many_frames then max_batch_frames else 0;
}

-- `Error()`; every rejection has a cause.
unfoldable pub rejection_text : RejectionError → String
rejection_text e = if e.message == "" then error_text e.cause else e.message
