-- ===== src/Examples/Strings.antt =====
-- Runs of the helpers of src/unitypes.h, and a message of the client program.
